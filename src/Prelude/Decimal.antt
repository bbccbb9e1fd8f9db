-- ===== src/Prelude/Decimal.antt =====
-- Decimal digits, lowest first, as the `do { … num % 10 … num /= 10 } while (num != 0)` loops give
-- them; `num + 1` rounds are enough.
use new_rojcpp.Prelude.{
  ℕ, zero, suc, ◌+◌, ◌-◌, ◌*◌, ◌/◌, ◌%◌, ◌<◌, ◌≤◌, ◌^◌, length, ◌≡◌, refl, ap, ◌∙◌, List, [], ◌∷◌,
  ◌++◌, map, Bool, true, false, ◌&&◌, inl, inr, arith, leb, ◌==◌, if◌then◌else◌, Bool-cases,
}
use mathlib.Core.List.{reverse, reverse-cons}

digits_from : ℕ → ℕ → List ℕ
digits_from zero n = []
digits_from (suc fuel) n =
    (n % 10) ∷ (elim (n / 10 == 0) [ true ↦ [] | false ↦ digits_from fuel (n / 10) ])

unfoldable pub digits : ℕ → List ℕ
unfolding digits_from
digits n = digits_from (suc n) n

-- The number that a list of digits stands for, highest first.
abbrev pub value_from : ℕ → List ℕ → ℕ
value_from acc [] = acc
value_from acc (d ∷ ds) = value_from (acc * 10 + d) ds

value_from-append :
    (acc : ℕ) (ds : List ℕ) (d : ℕ) → value_from acc (ds ++ d ∷ []) ≡ value_from acc ds * 10 + d
value_from-append acc [] d = refl
value_from-append acc (x ∷ ds) d = value_from-append (acc * 10 + x) ds d

digits_from-value : (fuel n : ℕ) → n < fuel → value_from 0 (reverse (digits_from fuel n)) ≡ n
unfolding digits_from
digits_from-value zero n h = absurd (omega arith)
digits_from-value (suc fuel) n h = elim (Bool-cases (n / 10 == 0)) [
  | inl e ↦ rw (e, digits_from) (ground arith)
  | inr e ↦
      rw
        (
          e,
          digits_from,
          reverse-cons (n % 10) (digits_from fuel (n / 10)),
          value_from-append 0 (reverse (digits_from fuel (n / 10))) (n % 10),
          digits_from-value fuel (n / 10) (ground arith),
        )
        (omega arith)
]

-- Printing and reading back gives the number.
pub digits-value : (n : ℕ) → value_from 0 (reverse (digits n)) ≡ n
unfolding digits
digits-value n = digits_from-value (suc n) n (omega arith)

length-digits_from : (fuel k n : ℕ) → n < 10 ^ suc k → length (digits_from fuel n) ≤ suc k
unfolding digits_from
length-digits_from zero k n h = omega arith
length-digits_from (suc fuel) zero n h =
    let none : n / 10 == 0 ≡ true = ground arith in rw (digits_from, none) (omega arith)
length-digits_from (suc fuel) (suc k) n h = elim (Bool-cases (n / 10 == 0)) [
  | inl e ↦ rw (e, digits_from) (omega arith)
  | inr e ↦
      let shorter = length-digits_from fuel k (n / 10) (omega (arith, h)) in
      rw (e, digits_from) (omega (arith, shorter))
]

-- A number below 10 ^ (k + 1) has at most k + 1 digits.
pub length-digits : (k n : ℕ) → n < 10 ^ suc k → length (digits n) ≤ suc k
unfolding digits
length-digits k n h = length-digits_from (suc n) k n h

-- Every element is below the bound.
abbrev pub AreBelow : ℕ → List ℕ → Type 0
AreBelow n [] = Unit
AreBelow n (x ∷ xs) = (x < n) × AreBelow n xs

append-AreBelow : (n : ℕ) (xs ys : List ℕ) → AreBelow n xs → AreBelow n ys → AreBelow n (xs ++ ys)
append-AreBelow n [] ys h k = k
append-AreBelow n (x ∷ xs) ys h k = (h.0, append-AreBelow n xs ys h.1 k)

digits_from-AreBelow : (fuel n : ℕ) → AreBelow 10 (reverse (digits_from fuel n))
unfolding digits_from
digits_from-AreBelow zero n = tt
digits_from-AreBelow (suc fuel) n = elim (Bool-cases (n / 10 == 0)) [
  | inl e ↦ rw (e, digits_from) (ground arith)
  | inr e ↦
      rw (e, digits_from, reverse-cons (n % 10) (digits_from fuel (n / 10)))
        (append-AreBelow 10 (reverse (digits_from fuel (n / 10))) (n % 10 ∷ [])
          (digits_from-AreBelow fuel (n / 10)) (ground arith))
]

-- Every digit is one.
pub digits-AreBelow : (n : ℕ) → AreBelow 10 (reverse (digits n))
unfolding digits
digits-AreBelow n = digits_from-AreBelow (suc n) n

-- There is a first digit.
pub reverse-digits : (n : ℕ) → (d : ℕ) × (ds : List ℕ) × (reverse (digits n) ≡ d ∷ ds)
unfolding digits digits_from
reverse-digits n =
    let (d, ds, e) = first_of (reverse higher) (n % 10) in (d, ds, reverse-cons (n % 10) higher ∙ e)
  where
    higher : List ℕ
    higher = elim (n / 10 == 0) [ true ↦ [] | false ↦ digits_from n (n / 10) ]

    first_of : (xs : List ℕ) (x : ℕ) → (d : ℕ) × (ds : List ℕ) × (xs ++ x ∷ [] ≡ d ∷ ds)
    first_of [] x = (x, [], refl)
    first_of (y ∷ ys) x = (y, ys ++ x ∷ [], refl)

abbrev pub is_digit : ℕ → Bool
is_digit c = leb 48 c && leb c 57

-- A number in decimal characters.
abbrev pub decimal : ℕ → List ℕ
decimal n = map (λ d. 48 + d) (reverse (digits n))

-- The value of the digits up to the first other character, as `atoll` and `std::from_chars` read
-- them.
unfoldable pub digits_value : ℕ → List ℕ → ℕ
digits_value acc [] = acc
digits_value acc (c ∷ cs) =
    let rest = digits_value (acc * 10 + (c - 48)) cs in if is_digit c then rest else acc

-- The text does not go on with a digit.
abbrev pub IsEnd : List ℕ → Type 0
IsEnd [] = Unit
IsEnd (c ∷ cs) = is_digit c ≡ false

digits_value-end : (acc : ℕ) (rest : List ℕ) → IsEnd rest → digits_value acc rest ≡ acc
unfolding digits_value
digits_value-end acc [] h = refl
digits_value-end acc (c ∷ cs) h = rw (digits_value, h) refl

pub digits_value-map :
    (acc : ℕ) (ds rest : List ℕ)
    → AreBelow 10 ds
    → IsEnd rest
    → digits_value acc (map (λ d. 48 + d) ds ++ rest) ≡ value_from acc ds
unfolding digits_value
digits_value-map acc [] rest h e = digits_value-end acc rest e
digits_value-map acc (d ∷ ds) rest h e =
    let digit : is_digit (48 + d) ≡ true = ground arith in
    let same : 48 + d - 48 ≡ d = omega arith in
    rw (digits_value, digit, same) (digits_value-map (acc * 10 + d) ds rest h.1 e)

AreBelow-eq : {xs ys : List ℕ} → xs ≡ ys → AreBelow 10 xs → AreBelow 10 ys
AreBelow-eq e h = rw (← e) h

AreBelow-digit : (xs ds : List ℕ) (d : ℕ) → xs ≡ d ∷ ds → AreBelow 10 xs → is_digit (48 + d) ≡ true
AreBelow-digit xs ds d e h = let below = AreBelow-eq e h in ground (arith, below.0)

-- A decimal text begins with a digit.
pub decimal-first : (n : ℕ) → (c : ℕ) × (cs : List ℕ) × (decimal n ≡ c ∷ cs) × (is_digit c ≡ true)
decimal-first n =
    let (d, ds, e) = reverse-digits n in
    (
      48 + d,
      map (λ x. 48 + x) ds,
      ap (map (λ x. 48 + x)) e,
      AreBelow-digit (reverse (digits n)) ds d e (digits-AreBelow n),
    )

-- The decimal characters of a number and a text that does not go on with one.
pub decimal-value : (n : ℕ) (rest : List ℕ) → IsEnd rest → digits_value 0 (decimal n ++ rest) ≡ n
decimal-value n rest h =
    digits_value-map 0 (reverse (digits n)) rest (digits-AreBelow n) h ∙ digits-value n
