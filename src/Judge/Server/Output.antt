-- ===== src/Judge/Server/Output.antt =====
-- The seven numbers that `__judger` (libs/judgercpp/judge_server/src/judgeWorkPool.hpp) reads in what
-- the judger wrote.
pub mod RoundTrip
use new_rojcpp.Prelude.{
  ℕ, ◌-◌, ◌*◌, ◌%◌, ◌^◌, List, [], ◌∷◌, Option, none, some, Bool, true, false, ◌&&◌, ◌||◌, ltb, leb,
  ◌==◌, if◌then◌else◌,
}
use new_rojcpp.Prelude.Decimal.{is_digit, digits_value}
use new_rojcpp.Judge.ResultMessage.{JudgeResult}

-- A value and the text that is left.
abbrev pub Scanned : Type 0 → Type 0
Scanned A = Option (A × List ℕ)

abbrev pub is_space : ℕ → Bool
is_space c = leb 9 c && leb c 13 || c == b' '

abbrev pub begins : List ℕ → Bool
begins [] = false
begins (c ∷ cs) = is_digit c

unfoldable pub behind_digits : List ℕ → List ℕ
behind_digits [] = []
behind_digits (c ∷ cs) = let rest = behind_digits cs in if is_digit c then rest else c ∷ cs

abbrev pub positive : ℕ → List ℕ → Scanned ℕ
positive half cs =
    let n = digits_value 0 cs in
    if begins cs && ltb n half then some (n, behind_digits cs) else none

abbrev pub negative : ℕ → List ℕ → Scanned ℕ
negative half cs =
    let n = digits_value 0 cs in
    if begins cs && leb n half then some ((2 * half - n) % (2 * half), behind_digits cs) else none

-- `ss >> x` for an `int` or a `long`, as a pattern below twice `half`. Where there is no number, or one
-- that does not fit, the stream fails and the numbers behind it are not set: that is `none`.
unfoldable pub scan_number : ℕ → List ℕ → Scanned ℕ
unfolding behind_digits
scan_number half [] = none
scan_number half (c ∷ cs) = elim (is_space c) [
  | true ↦ scan_number half cs
  | false ↦
      if c == b'-'
      then negative half cs
      else if c == b'+'
      then positive half cs
      else positive half (c ∷ cs)
]

abbrev pub and_then : {A B : Type 0} → Scanned A → (A → List ℕ → Option B) → Option B
and_then none k = none
and_then (some (a, rest)) k = k a rest

unfoldable pub scan_result : List ℕ → Option JudgeResult
unfolding scan_number
scan_result text = and_then (scan_number (2 ^ 31) text) (λ cpu_time t1.
    and_then (scan_number (2 ^ 31) t1) (λ real_time t2.
      and_then (scan_number (2 ^ 63) t2) (λ memory t3.
        and_then (scan_number (2 ^ 31) t3) (λ signal t4.
          and_then (scan_number (2 ^ 31) t4) (λ exit_code t5.
            and_then (scan_number (2 ^ 31) t5) (λ error t6.
              and_then (scan_number (2 ^ 31) t6) (λ result t7. some (record {
                cpu_time = cpu_time;
                real_time = real_time;
                memory = memory;
                signal = signal;
                exit_code = exit_code;
                error = error;
                result = result;
              }))))))))
