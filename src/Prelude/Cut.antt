-- ===== src/Prelude/Cut.antt =====
-- A text cut at the first place of a character, as the calls of `find` and `substr` cut it.
use new_rojcpp.Prelude.{
  ℕ, suc, ◌+◌, ◌≡◌, ◌≢◌, ◌⊎◌, refl, List, [], ◌∷◌, ◌++◌, Option, none, some, true, false, inl, inr,
  arith, length, ◌==◌, Bool-cases,
}

-- The character does not occur.
abbrev pub Lacks : ℕ → List ℕ → Type 0
Lacks c [] = Unit
Lacks c (x ∷ xs) = (x ≢ c) × Lacks c xs

-- What stands before the first `c`, and what behind it.
unfoldable pub cut : ℕ → List ℕ → Option (List ℕ × List ℕ)
cut c [] = none
cut c (x ∷ xs) = elim (x == c) [
  | true ↦ some ([], xs)
  | false ↦ elim (cut c xs) [ none ↦ none | some (before, after) ↦ some (x ∷ before, after) ]
]

pub cut-append : (c : ℕ) (xs ys : List ℕ) → Lacks c xs → cut c (xs ++ c ∷ ys) ≡ some (xs, ys)
unfolding cut
cut-append c [] ys h = let e : (c == c) ≡ true = ground arith in rw (cut, e)
cut-append c (x ∷ xs) ys h =
    let e : (x == c) ≡ false = ground arith in rw (cut, e, cut-append c xs ys h.1)

-- The parts are as long as the text, less the character; the second one lacks what the text lacks.
pub record Cuts (c : ℕ) (text before after : List ℕ) : Type 0 where
  pub lengths : length text ≡ suc (length before + length after)
  pub lacking : (d : ℕ) → Lacks d text → Lacks d after

pub cut-cases :
    (c : ℕ) (text : List ℕ)
    → (cut c text ≡ none)
      ⊎ ((before : List ℕ) × (after : List ℕ) × (cut c text ≡ some (before, after))
          × Cuts c text before after)
unfolding cut
cut-cases c [] = inl refl
cut-cases c (x ∷ xs) = elim (Bool-cases (x == c)) [
  | inl e ↦ inr ([], xs, rw (cut, e), record { lengths = omega arith; lacking = λ d h. h.1 })
  | inr e ↦ elim (cut-cases c xs) [
    | inl n ↦ inl (rw (cut, e, n))
    | inr (before, after, s, r) ↦ inr (
      x ∷ before,
      after,
      rw (cut, e, s),
      record { lengths = omega (arith, r.lengths); lacking = λ d h. r.lacking d h.1 },
    )
  ]
]
