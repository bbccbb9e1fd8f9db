-- ===== src/Log/Stream/Written.antt =====
-- What a sequence of `<<` leaves in the buffer.
use new_rojcpp.Prelude.{
  ℕ, zero, suc, ◌+◌, ◌-◌, ◌<◌, ◌≤◌, ◌≡◌, refl, sym, ap, ◌∙◌, List, [], ◌∷◌, ◌++◌, map, arith, leb,
  ltb, true, Bool, ◌&&◌, length, length-append, append-nil, append_assoc, ◌==◌, Bool-cases, inl,
  inr,
}
use new_rojcpp.Prelude.Decimal.{digits, decimal, AreBelow, digits-AreBelow}
use new_rojcpp.Prelude.Int.{ℤ, pos, negsuc}
use new_rojcpp.Prelude.Text.{codes}
use new_rojcpp.Log.Async.{buffer_append}
use new_rojcpp.Log.Stream.{
  k_small_buffer, zero_up, zero_down, backwards, format_inter, Piece, integer, character, string,
  null, write_piece, write_all,
}
use mathlib.Core.List.{reverse, reverse_aux, reverse-append}

-- An integer as `std::to_string` gives it.
abbrev pub signed : ℤ → List ℕ
signed (pos n) = decimal n
signed (negsuc n) = 45 ∷ decimal (suc n)

abbrev pub printed : Piece → List ℕ
printed (integer num) = signed num
printed (character c) = c ∷ []
printed (string str) = str
printed null = codes "(null)"

abbrev pub all_printed : List Piece → List ℕ
all_printed [] = []
all_printed (p ∷ ps) = printed p ++ all_printed ps

-- A function that is right on the digits below `n`.
abbrev is_right : (ℕ → ℕ) → ℕ → Bool
is_right f zero = true
is_right f (suc n) = (f n == 48 + n) && is_right f n

is_right-digit : (f : ℕ → ℕ) (n d : ℕ) → is_right f n ≡ true → d < n → f d ≡ 48 + d
is_right-digit f zero d e h = absurd (omega (arith, h))
is_right-digit f (suc n) d e h = elim (Bool-cases (f n == 48 + n)) [
  | inr k ↦ absurd (ground (arith, e, k))
  | inl k ↦ elim (Bool-cases (d == n)) [
    | inl same ↦ (let eq : d ≡ n = ground (arith, same) in rw (eq) (ground (arith, k)))
    | inr other ↦ is_right-digit f n d (ground (arith, e, k)) (ground (arith, h, other))
  ]
]

module _ (zero_of : ℕ → ℕ) (right : is_right zero_of 10 ≡ true) where
  map-reverse_aux :
      (ds done : List ℕ)
      → map zero_of (reverse_aux ds done) ≡ reverse_aux (map zero_of ds) (map zero_of done)
  map-reverse_aux [] done = refl
  map-reverse_aux (d ∷ ds) done = map-reverse_aux ds (d ∷ done)

  map-digits : (ds : List ℕ) → AreBelow 10 ds → map zero_of ds ≡ map (λ d. 48 + d) ds
  map-digits [] h = refl
  map-digits (d ∷ ds) h = rw (is_right-digit zero_of 10 d right h.0, map-digits ds h.1) refl

  reverse-decimal : (n : ℕ) → reverse (map zero_of (digits n)) ≡ decimal n
  reverse-decimal n =
      sym (map-reverse_aux (digits n) []) ∙ map-digits (reverse (digits n)) (digits-AreBelow n)

pub backwards-signed : (num : ℤ) → reverse (backwards num) ≡ signed num
backwards-signed (pos n) = reverse-decimal zero_up refl n
backwards-signed (negsuc n) =
    reverse-append (map zero_down (digits (suc n))) (45 ∷ [])
    ∙ ap (◌∷◌ 45) (reverse-decimal zero_down refl (suc n))

-- With 48 bytes free and with room for the part, the part is added.
write_piece-printed :
    (p : Piece) (text : List ℕ)
    → length text + length (printed p) + 48 ≤ k_small_buffer
    → write_piece p text ≡ text ++ printed p
unfolding format_inter buffer_append
write_piece-printed (integer num) text h =
    let room : leb 48 (k_small_buffer - length text) ≡ true = ground (arith, h) in
    rw (format_inter, room, backwards-signed num) refl
write_piece-printed (character c) text h =
    let room : ltb 1 (k_small_buffer - length text) ≡ true = ground (arith, h) in
    rw (buffer_append, room) refl
write_piece-printed (string str) text h =
    let room : ltb (length str) (k_small_buffer - length text) ≡ true = ground (arith, h) in
    rw (buffer_append, room) refl
write_piece-printed null text h =
    let room : ltb 6 (k_small_buffer - length text) ≡ true = ground (arith, h) in
    rw (buffer_append, room) refl

write_all-append :
    (ps : List Piece) (text : List ℕ)
    → length text + length (all_printed ps) + 48 ≤ k_small_buffer
    → write_all ps text ≡ text ++ all_printed ps
write_all-append [] text h = sym (append-nil text)
write_all-append (p ∷ ps) text h =
    let size = length-append (printed p) (all_printed ps) in
    let e = write_piece-printed p text (omega (arith, h, size)) in
    let more = length-append text (printed p) in
    ap (write_all ps) e
    ∙ write_all-append ps (text ++ printed p) (omega (arith, h, size, more))
    ∙ append_assoc text (printed p) (all_printed ps)

-- If the whole text leaves 48 bytes of the buffer free, no part is lost: the buffer holds what every
-- part prints, in order, with the integers, also the least one, in decimal with their signs.
pub write_all-printed :
    (ps : List Piece)
    → length (all_printed ps) + 48 ≤ k_small_buffer
    → write_all ps [] ≡ all_printed ps
write_all-printed ps h = write_all-append ps [] (omega (arith, h))
