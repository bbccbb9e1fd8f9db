-- ===== src/Judge/Tcp/Pieces.antt =====
-- `readn` does not depend on the pieces that the bytes come in, nor `writen` on those they go in.
use new_rojcpp.Prelude.{
  ℕ, zero, suc, ◌+◌, ◌-◌, ◌≤◌, ◌≡◌, ◌≢◌, refl, sym, ap, ◌∙◌, List, [], ◌∷◌, ◌++◌, some, true, false,
  arith, ltb, ◌==◌, length, take, drop, joined, length-append, length-drop, take-append_add,
  take-append_of_le, drop_add, drop_append, take-drop, total, ArePositive, append_assoc, append-nil,
  Bool-cases, inl, inr,
}
use new_rojcpp.Judge.Tcp.{complete, readn, writen}

-- No piece is empty.
abbrev pub AreFull : List (List ℕ) → Type 0
AreFull [] = Unit
AreFull (piece ∷ pieces) = (length piece ≢ 0) × AreFull pieces

-- What is left behind the bytes that were read.
pub record IsRest (n : ℕ) (bytes : List ℕ) (rest : List (List ℕ)) : Type 0 where
  pub behind : joined rest ≡ drop n bytes
  pub full : AreFull rest

drop-append_of_le : (n : ℕ) (xs ys : List ℕ) → n ≤ length xs → drop n (xs ++ ys) ≡ drop n xs ++ ys
drop-append_of_le zero xs ys h = refl
drop-append_of_le (suc n) [] ys h = absurd (omega arith)
drop-append_of_le (suc n) (x ∷ xs) ys h = drop-append_of_le n xs ys (omega arith)

drop-append_add : (n m : ℕ) (xs ys : List ℕ) → n ≡ length xs → drop (n + m) (xs ++ ys) ≡ drop m ys
drop-append_add n m xs ys h = drop_add n m (xs ++ ys) ∙ ap (drop m) (rw h (drop_append xs ys))

pub readn-take :
    (pieces : List (List ℕ)) (n : ℕ) (buffer : List ℕ)
    → AreFull pieces
    → n ≤ length (joined pieces)
    → (rest : List (List ℕ)) × (readn pieces n buffer
        ≡ complete (buffer ++ take n (joined pieces)) rest)
      × IsRest n (joined pieces) rest
unfolding readn
readn-take [] n buffer f h =
    let e : n ≡ 0 = omega (arith, h) in
    rw e ([], rw (readn, append-nil buffer) refl, record { behind = refl; full = tt })
readn-take (piece ∷ pieces) n buffer f h =
    let some_left : (length piece == 0) ≡ false = ground (arith, f.0) in
    elim (Bool-cases (n == 0)) [
      | inl e ↦
          let zero_left : n ≡ 0 = ground (arith, e) in
          rw zero_left
            (piece ∷ pieces, rw (readn, append-nil buffer) refl, record { behind = refl; full = f })
      | inr e ↦ elim (Bool-cases (ltb n (length piece))) [
        | inl l ↦
            let within : n ≤ length piece = ground (arith, l) in
            (
              drop n piece ∷ pieces,
              rw (readn, e, some_left, l, take-append_of_le n piece (joined pieces) within) refl,
              record {
                behind = sym (drop-append_of_le n piece (joined pieces) within);
                full = (ground (arith, l, length-drop n piece), f.1);
              },
            )
        | inr l ↦
            let more : length piece + (n - length piece) ≡ n = ground (arith, l) in
            let fits : n - length piece ≤ length (joined pieces) =
              ground (arith, l, h, length-append piece (joined pieces)) in
            let (rest, r, k) = readn-take pieces (n - length piece) (buffer ++ piece) f.1 fits in
            let taken =
              take-append_add (length piece) (n - length piece) piece (joined pieces) refl in
            let dropped =
              drop-append_add (length piece) (n - length piece) piece (joined pieces) refl in
            (
              rest,
              rw (readn, e, some_left, l)
                  (r
                    ∙ ap (λ t. complete t rest)
                        (append_assoc buffer piece (take (n - length piece) (joined pieces))
                          ∙ ap (◌++◌ buffer) (rw more at (sym taken)))),
              record { behind = k.behind ∙ (rw more at (sym dropped)); full = k.full },
            )
      ]
    ]

pub writen_all :
    (calls buffer : List ℕ)
    → ArePositive calls
    → length buffer ≤ total calls
    → writen calls buffer ≡ (buffer, some true)
unfolding writen
writen_all [] [] p h = refl
writen_all (sent ∷ calls) [] p h = refl
writen_all [] (b ∷ buffer) p h = absurd (omega (arith, h))
writen_all (sent ∷ calls) (b ∷ buffer) p h =
    let some_sent : (sent == 0) ≡ false = ground (arith, p.0) in
    let fits : length (drop sent (b ∷ buffer)) ≤ total calls =
      omega (arith, h, length-drop sent (b ∷ buffer)) in
    let rest = writen_all calls (drop sent (b ∷ buffer)) p.1 fits in
    rw (writen, some_sent, rest) (ap (λ t. (t, some true)) (take-drop sent (b ∷ buffer)))
