-- ===== src/Log/Stream/Room.antt =====
-- The room that a sequence of `<<` takes in the buffer.
use new_rojcpp.Prelude.{
  ℕ, suc, ◌+◌, ◌-◌, ◌<◌, ◌≤◌, ◌^◌, ◌≡◌, refl, ap, List, [], ◌∷◌, map, arith, leb, ltb, length,
  length-append, Bool-cases, inl, inr,
}
use new_rojcpp.Prelude.Decimal.{digits, length-digits}
use new_rojcpp.Prelude.Int.{ℤ, pos, negsuc}
use new_rojcpp.Prelude.Text.{codes}
use new_rojcpp.Log.Async.{buffer_append}
use new_rojcpp.Log.Stream.{
  k_small_buffer, zero_up, zero_down, backwards, format_inter, Piece, integer, character, string,
  null, write_piece, write_all,
}
use mathlib.Core.List.{reverse, reverse_aux}

-- A type of at most 64 bits holds the integer.
abbrev pub IsMachine : Piece → Type 0
IsMachine (integer (pos n)) = n < 2 ^ 64
IsMachine (integer (negsuc n)) = n < 2 ^ 63
IsMachine _ = Unit

abbrev pub AreMachine : List Piece → Type 0
AreMachine [] = Unit
AreMachine (p ∷ ps) = IsMachine p × AreMachine ps

length-map : (f : ℕ → ℕ) (xs : List ℕ) → length (map f xs) ≡ length xs
length-map f [] = refl
length-map f (x ∷ xs) = ap suc (length-map f xs)

length-reverse_aux : (xs ys : List ℕ) → length (reverse_aux xs ys) ≡ length xs + length ys
length-reverse_aux [] ys = omega arith
length-reverse_aux (x ∷ xs) ys = omega (arith, length-reverse_aux xs (x ∷ ys))

-- With its sign an integer has at most 21 characters, so that the loop stays in the 48 bytes.
length-backwards : (num : ℤ) → IsMachine (integer num) → length (backwards num) ≤ 21
length-backwards (pos n) h =
    omega (arith, length-map zero_up (digits n), length-digits 19 n (omega (arith, h)))
length-backwards (negsuc n) h = omega (
  arith,
  length-append (map zero_down (digits (suc n))) (45 ∷ []),
  length-map zero_down (digits (suc n)),
  length-digits 19 (suc n) (omega (arith, h)),
)

append-inside :
    (src text : List ℕ)
    → length text ≤ k_small_buffer
    → length (buffer_append k_small_buffer src text) ≤ k_small_buffer
unfolding buffer_append
append-inside src text h = elim (Bool-cases (ltb (length src) (k_small_buffer - length text))) [
  | inl e ↦ rw (buffer_append, e) (ground (arith, e, length-append text src))
  | inr e ↦ rw (buffer_append, e) h
]

write_piece-inside :
    (p : Piece) (text : List ℕ)
    → IsMachine p
    → length text ≤ k_small_buffer
    → length (write_piece p text) ≤ k_small_buffer
unfolding format_inter
write_piece-inside (integer num) text m h =
    elim (Bool-cases (leb 48 (k_small_buffer - length text))) [
      | inl e ↦
          rw (format_inter, e)
            (ground (
              arith,
              e,
              length-append text (reverse (backwards num)),
              length-reverse_aux (backwards num) [],
              length-backwards num m,
            ))
      | inr e ↦ rw (format_inter, e) h
    ]
write_piece-inside (character c) text m h = append-inside (c ∷ []) text h
write_piece-inside (string str) text m h = append-inside str text h
write_piece-inside null text m h = append-inside (codes "(null)") text h

-- Whatever is written, with integers of at most 64 bits: the text never leaves the buffer.
pub write_all-inside :
    (ps : List Piece) (text : List ℕ)
    → AreMachine ps
    → length text ≤ k_small_buffer
    → length (write_all ps text) ≤ k_small_buffer
write_all-inside [] text m h = h
write_all-inside (p ∷ ps) text m h =
    write_all-inside ps (write_piece p text) m.1 (write_piece-inside p text m.0 h)
