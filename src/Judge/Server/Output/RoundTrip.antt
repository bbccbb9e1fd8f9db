-- ===== src/Judge/Server/Output/RoundTrip.antt =====
-- The judge server reads the result that the judger wrote.
use new_rojcpp.Prelude.{
  ℕ, ◌+◌, ◌-◌, ◌*◌, ◌%◌, ◌^◌, ◌<◌, ◌≤◌, ◌≡◌, refl, sym, ap, ◌∙◌, List, [], ◌∷◌, ◌++◌, map, Option,
  some, true, false, ltb, leb, ◌==◌, inl, inr, Bool-cases, arith,
}
use new_rojcpp.Prelude.Decimal.{
  decimal, decimal-first, decimal-value, digits, digits-AreBelow, is_digit, AreBelow,
}
use new_rojcpp.Judge.ResultMessage.{JudgeResult}
use new_rojcpp.Judge.ResultMessage.RoundTrip.{IsPattern}
use new_rojcpp.Judge.Judger.{signed_text, printed_line, print_result}
use new_rojcpp.Judge.Server.Output.{
  is_space, begins, behind_digits, positive, negative, scan_number, and_then, scan_result,
}
use mathlib.Core.List.{reverse}
use native.Mathlib.Nat.{mod-eq_of_lt}

behind_digits-map :
    (ds rest : List ℕ)
    → AreBelow 10 ds
    → behind_digits (map (λ d. 48 + d) ds ++ 32 ∷ rest) ≡ 32 ∷ rest
unfolding behind_digits
behind_digits-map [] rest h = refl
behind_digits-map (d ∷ ds) rest h =
    let digit : is_digit (48 + d) ≡ true = ground arith in
    rw (behind_digits, digit) (behind_digits-map ds rest h.1)

behind_decimal : (n : ℕ) (rest : List ℕ) → behind_digits (decimal n ++ 32 ∷ rest) ≡ 32 ∷ rest
behind_decimal n rest = behind_digits-map (reverse (digits n)) rest (digits-AreBelow n)

begins-decimal : (n : ℕ) (rest : List ℕ) → begins (decimal n ++ rest) ≡ true
begins-decimal n rest =
    let (c, cs, e, digit) = decimal-first n in ap (λ t. begins (t ++ rest)) e ∙ digit

positive-decimal :
    (half n : ℕ) (rest : List ℕ)
    → n < half
    → positive half (decimal n ++ 32 ∷ rest) ≡ some (n, 32 ∷ rest)
positive-decimal half n rest h =
    let fits : ltb n half ≡ true = ground (arith, h) in
    rw
      (
        positive,
        decimal-value n (32 ∷ rest) refl,
        begins-decimal n (32 ∷ rest),
        fits,
        behind_decimal n rest,
      )
      refl

negative-decimal :
    (half n : ℕ) (rest : List ℕ)
    → n ≤ half
    → negative half (decimal n ++ 32 ∷ rest) ≡ some ((2 * half - n) % (2 * half), 32 ∷ rest)
negative-decimal half n rest h =
    let fits : leb n half ≡ true = ground (arith, h) in
    rw
      (
        negative,
        decimal-value n (32 ∷ rest) refl,
        begins-decimal n (32 ∷ rest),
        fits,
        behind_decimal n rest,
      )
      refl

scan_number-digit :
    (half c : ℕ) (cs : List ℕ)
    → is_digit c ≡ true
    → scan_number half (c ∷ cs) ≡ positive half (c ∷ cs)
unfolding scan_number
scan_number-digit half c cs h =
    let solid : is_space c ≡ false = ground (arith, h) in
    let no_minus : (c == b'-') ≡ false = ground (arith, h) in
    let no_plus : (c == b'+') ≡ false = ground (arith, h) in
    rw (scan_number, solid, no_minus, no_plus) refl

scan_number-decimal :
    (half n : ℕ) (rest : List ℕ)
    → n < half
    → scan_number half (decimal n ++ 32 ∷ rest) ≡ some (n, 32 ∷ rest)
scan_number-decimal half n rest h =
    let (c, cs, e, digit) = decimal-first n in
    ap (λ t. scan_number half (t ++ 32 ∷ rest)) e
    ∙ scan_number-digit half c (cs ++ 32 ∷ rest) digit
    ∙ ap (λ t. positive half (t ++ 32 ∷ rest)) (sym e)
    ∙ positive-decimal half n rest h

wrapped_back : (half n : ℕ) → n < 2 * half → (2 * half - (2 * half - n)) % (2 * half) ≡ n
wrapped_back half n h =
    let back : 2 * half - (2 * half - n) ≡ n = omega (arith, h) in rw back (mod-eq_of_lt h)

-- A number that was written is read back, and the end of its line is left.
scan_number-signed_text :
    (half n : ℕ) (rest : List ℕ)
    → n < 2 * half
    → scan_number half (printed_line (signed_text half n) rest) ≡ some (n, 32 ∷ 10 ∷ rest)
unfolding scan_number
scan_number-signed_text half n rest h = elim (Bool-cases (ltb n half)) [
  | inl e ↦ rw e (scan_number-decimal half n (10 ∷ rest) (ground (arith, e)))
  | inr e ↦ rw e (
      negative-decimal half (2 * half - n) (10 ∷ rest) (ground (arith, e))
      ∙ ap (λ k. some (k, 32 ∷ 10 ∷ rest)) (wrapped_back half n h))
]

read_number :
    {B : Type 0} (half n : ℕ) (rest : List ℕ) (k : ℕ → List ℕ → Option B)
    → n < 2 * half
    → and_then (scan_number half (printed_line (signed_text half n) rest)) k ≡ k n (32 ∷ 10 ∷ rest)
read_number half n rest k h = ap (λ s. and_then s k) (scan_number-signed_text half n rest h)

-- What `print_result` writes, `__judger` reads back.
pub scan_result-print_result :
    (r : JudgeResult) → IsPattern r → scan_result (print_result r) ≡ some r
unfolding scan_result print_result scan_number
scan_result-print_result r p =
    read_number (2 ^ 31) r.cpu_time _ _ p.cpu_fits
    ∙ read_number (2 ^ 31) r.real_time _ _ p.real_fits
    ∙ read_number (2 ^ 63) r.memory _ _ p.memory_fits
    ∙ read_number (2 ^ 31) r.signal _ _ p.signal_fits
    ∙ read_number (2 ^ 31) r.exit_code _ _ p.exit_fits
    ∙ read_number (2 ^ 31) r.error _ _ p.error_fits
    ∙ read_number (2 ^ 31) r.result _ _ p.result_fits
