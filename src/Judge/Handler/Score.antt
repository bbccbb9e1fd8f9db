-- ===== src/Judge/Handler/Score.antt =====
-- What the database gets for a submission: its result and its score.
use new_rojcpp.Prelude.{
  ℕ, suc, ◌+◌, ◌*◌, ◌/◌, ◌<◌, ◌≤◌, ◌≡◌, ◌↔◌, refl, ◌∙◌, inl, inr, List, [], ◌∷◌, false, true, ltb,
  ◌%◌, ◌^◌, arith, ◌==◌, if◌then◌else◌, Bool-cases, length, length-append,
}
use native.Mathlib.Nat.{le-div_iff_mul-le, div-le_of_le-mul}
use new_rojcpp.Judge.ResultMessage.{JudgeResult, MessageResult}
use new_rojcpp.Judge.Handler.{
  Tally, tally_one, tally, start, score_of, result_to_mini_result, SolutionUpdate, update_of,
}

-- All points have the result ACCEPT.
abbrev pub AreAccepted : List JudgeResult → Type 0
AreAccepted [] = Unit
AreAccepted (e ∷ es) = (e.result ≡ 0) × AreAccepted es

accepted : List JudgeResult → ℕ
accepted [] = 0
accepted (e ∷ es) = let n = accepted es in if e.result == 0 then suc n else n

right_size_lem :
    (es : List JudgeResult) (t : Tally) → (tally es t).right_size ≡ t.right_size + accepted es
unfolding tally tally_one accepted
right_size_lem [] t = omega arith
right_size_lem (e ∷ es) t = ground (arith, right_size_lem es (tally_one e t))

mini_result_lem :
    (es : List JudgeResult) (t : Tally)
    → length (tally es t).mini_result ≡ length t.mini_result + length es
unfolding tally tally_one result_to_mini_result
mini_result_lem [] t = omega arith
mini_result_lem (e ∷ es) t =
    mini_result_lem es (tally_one e t) ∙ omega (arith, length-append t.mini_result (_ ∷ []))

-- A result that is not ACCEPT stays.
final_stays :
    (es : List JudgeResult) (t : Tally)
    → (t.final_result == 0) ≡ false
    → (tally es t).final_result ≡ t.final_result
unfolding tally tally_one
final_stays [] t h = refl
final_stays (e ∷ es) t h = final_stays es (tally_one e t) (ground (arith, h)) ∙ ground (arith, h)

final_zero :
    (es : List JudgeResult) (t : Tally)
    → t.final_result ≡ 0
    → ((tally es t).final_result ≡ 0) ↔ AreAccepted es
unfolding tally tally_one
final_zero [] t h = ground (arith, h)
final_zero (e ∷ es) t h = elim (Bool-cases (e.result == 0)) [
  | inl right ↦
      let ih = final_zero es (tally_one e t) (ground (arith, right, h)) in ground (arith, ih, right)
  | inr wrong ↦
      let kept = final_stays es (tally_one e t) (ground (arith, wrong, h)) in
      ground (arith, kept, wrong, h)
]

accepted_le : (es : List JudgeResult) → accepted es ≤ length es
unfolding accepted
accepted_le [] = omega arith
accepted_le (e ∷ es) = ground (arith, accepted_le es)

accepted_all : (es : List JudgeResult) → (accepted es ≡ length es) ↔ AreAccepted es
unfolding accepted
accepted_all [] = ground arith
accepted_all (e ∷ es) = ground (arith, accepted_le es, accepted_all es)

-- With fewer than 21474837 points the product does not wrap.
small_score : (r n : ℕ) → r ≤ n → 100 * n < 2 ^ 31 → (n == 0) ≡ false → score_of r n ≡ 100 * r / n
unfolding score_of
small_score r n h s some =
    let product : 100 * r % 2 ^ 32 ≡ 100 * r = omega arith in
    let fits : ltb (100 * r) (2 ^ 31) ≡ true = ground arith in
    rw (some, score_of, product, fits) refl

score_le : (r n : ℕ) → r ≤ n → 100 * n < 2 ^ 31 → score_of r n ≤ 100
unfolding score_of
score_le r n h s = elim (Bool-cases (n == 0)) [
  | inl none ↦ rw (none, score_of) (omega arith)
  | inr some ↦ rw (small_score r n h s some) (div-le_of_le-mul n (omega arith))
]

score_full : (r n : ℕ) → r ≤ n → 100 * n < 2 ^ 31 → 0 < n → (score_of r n ≡ 100) ↔ (r ≡ n)
score_full r n h s k =
    let some : (n == 0) ≡ false = ground arith in
    let least = le-div_iff_mul-le {k = n} {x = 100} {y = 100 * r} k in
    let most : 100 * r / n ≤ 100 = div-le_of_le-mul n (omega arith) in
    rw (small_score r n h s some) (ground (arith, least, most))

-- The update agrees with the results of the points.
pub record IsSummary (es : List JudgeResult) (u : SolutionUpdate) : Type 0 where
  pub score_bounded : u.score ≤ 100
  pub letter_each : length u.mini_result ≡ length es
  pub accepted_result : (u.result ≡ 0) ↔ AreAccepted es
  pub full_score : (u.score ≡ 100) ↔ AreAccepted es

-- For an answer with at least one point and fewer than 21474837, so that 100 times their number is an
-- `int`, what goes to the database is consistent: the result is
-- ACCEPT exactly if every point is accepted, the score is at most 100 and is 100 exactly in that
-- case, and the short result has one letter for each point.
pub update_of-IsSummary :
    (m : MessageResult)
    → 0 < length m.results
    → 100 * length m.results < 2 ^ 31
    → IsSummary m.results (update_of m)
unfolding update_of
update_of-IsSummary m h s =
    let le = accepted_le m.results in
    let count : (tally m.results start).right_size ≡ accepted m.results =
      omega (arith, right_size_lem m.results start) in
    record {
      score_bounded = rw count (score_le (accepted m.results) (length m.results) le s);
      letter_each = omega (arith, mini_result_lem m.results start);
      accepted_result = final_zero m.results start refl;
      full_score = rw count (
          ground (
            arith,
            score_full (accepted m.results) (length m.results) le s h,
            accepted_all m.results,
          ));
    }
