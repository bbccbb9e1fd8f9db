-- ===== src/Judge/Handler.antt =====
-- The handler of the judge server's answers that server::init sets (include/server.h), with
-- result_to_mini_result (libs/judgercpp/src/utils.hpp) and MessageResultJudge::dump_to_json
-- (libs/judgercpp/judge_server/src/Result.hpp). The query that update_solution runs is not
-- modelled: its arguments are what is returned.
pub mod Json
pub mod Score
pub mod Points
mod Tests
use new_rojcpp.Prelude.{
  ℕ, zero, suc, ◌+◌, ◌-◌, ◌*◌, ◌/◌, ◌%◌, ◌^◌, List, [], ◌∷◌, ◌++◌, Option, none, some, Bool, true,
  false, not, ◌&&◌, ltb, leb, ◌==◌, if◌then◌else◌, length,
}
use new_rojcpp.Prelude.Decimal.{is_digit, digits_value}
use new_rojcpp.Prelude.Int.{ℤ, pos, negsuc}
use new_rojcpp.Judge.ResultMessage.{JudgeResult, MessageResult}
use new_rojcpp.Judge.Cache.{Cache, create}
use Json.{dump_to_json}

-- A 32-bit pattern as an `int`, and converted to `std::size_t`.
abbrev pub to_int : ℕ → ℤ
to_int n = if ltb n (2 ^ 31) then pos n else negsuc (2 ^ 32 - 1 - n)

abbrev to_size : ℕ → ℕ
to_size n = if ltb n (2 ^ 31) then n else n + (2 ^ 64 - 2 ^ 32)

-- RESULT_MEAN, as 32-bit patterns: -1 is WRONG_ANSWER, 0 ACCEPT, and so on.
unfoldable pub mini_letter : ℕ → ℕ
mini_letter result =
    if result == 2 ^ 32 - 1
    then 87
    else if result == 0
    then 65
    else if result == 1
    then 84
    else if result == 2
    then 84
    else if result == 4
    then 82
    else if result == 3
    then 77
    else if result == 5
    then 83
    else 88

unfoldable pub result_to_mini_result : ℕ → List ℕ → List ℕ
result_to_mini_result result mini_result = mini_result ++ mini_letter result ∷ []

-- The variables of the loop over the results.
pub record Tally : Type 0 where
  pub final_result : ℕ
  pub sum_real_time : ℕ
  pub sum_cpu_time : ℕ
  pub sum_memory : ℕ
  pub right_size : ℕ
  pub mini_result : List ℕ

tally_one : JudgeResult → Tally → Tally
tally_one e t = record {
  final_result = if (t.final_result == 0) && not (e.result == 0) then e.result else t.final_result;
  sum_real_time = (t.sum_real_time + to_size e.real_time) % 2 ^ 64;
  sum_cpu_time = (t.sum_cpu_time + to_size e.cpu_time) % 2 ^ 64;
  sum_memory = (t.sum_memory + e.memory) % 2 ^ 64;
  right_size = if e.result == 0 then suc t.right_size else t.right_size;
  mini_result = result_to_mini_result e.result t.mini_result;
}

pub tally : List JudgeResult → Tally → Tally
tally [] t = t
tally (e ∷ es) t = tally es (tally_one e t)

abbrev pub start : Tally
start = record {
  final_result = 0;
  sum_real_time = 0;
  sum_cpu_time = 0;
  sum_memory = 0;
  right_size = 0;
  mini_result = [];
}

-- `total_size == 0 ? 0 : 100*right_size/total_size` on `int`s, as a pattern: the product wraps, and
-- the quotient is rounded towards 0.
pub score_of : ℕ → ℕ → ℕ
score_of right_size total_size = elim (total_size == 0) [
  | true ↦ 0
  | false ↦
      let product = 100 * right_size % 2 ^ 32 in
      if ltb product (2 ^ 31)
      then product / total_size
      else (2 ^ 32 - (2 ^ 32 - product) / total_size) % 2 ^ 32
]

-- The arguments of CURD::judgeTable::update_solution.
pub record SolutionUpdate : Type 0 where
  pub sid : List ℕ
  pub result : ℕ
  pub time_used : ℕ
  pub memory_used : ℕ
  pub score : ℕ
  pub mini_result : List ℕ
  pub full_result : List ℕ

-- The loop over "now,total"; `state` is 1 before the first other character and then 2. The numbers
-- are below 2 ^ 31.
pub data State : Type 0 where
  in_now in_total : State

pub read_points : State → ℕ → ℕ → List ℕ → ℕ × ℕ
read_points state now_point total_size [] = (now_point, total_size)
read_points State.in_now now_point total_size (c ∷ cs) =
    let digit = read_points State.in_now (now_point * 10 + (c - 48)) total_size cs in
    let other = read_points State.in_total now_point total_size cs in
    if is_digit c then digit else other
read_points State.in_total now_point total_size (c ∷ cs) =
    let digit = read_points State.in_total now_point (total_size * 10 + (c - 48)) cs in
    if is_digit c then digit else (now_point, total_size)

-- `std::from_chars`, which leaves 0 where there is no digit or the number is too large.
unfoldable pub int_sid : List ℕ → ℕ
int_sid sid = let n = digits_value 0 sid in if ltb n (2 ^ 64) then n else 0

pub update_of : MessageResult → SolutionUpdate
update_of m =
    let t = tally m.results start in
    record {
      sid = m.key;
      result = t.final_result;
      time_used = t.sum_cpu_time;
      memory_used = t.sum_memory;
      score = score_of t.right_size (length m.results);
      mini_result = t.mini_result;
      full_result = dump_to_json m.results;
    }

final_answer : ℕ → MessageResult → Cache → Option (Option SolutionUpdate × Cache)
final_answer now m c =
    let u = update_of m in
    elim (create now (int_sid m.key) (negsuc 0) (pos (length m.results)) (to_int u.result)
      u.full_result c) [ none ↦ none | some c' ↦ some (some u, c') ]

one_point : ℕ → MessageResult → Cache → Option (Option SolutionUpdate × Cache)
one_point now m c =
    let (now_point, total_size) = read_points State.in_now 0 0 m.msg in
    elim (create now (int_sid m.key) (pos now_point) (pos total_size) (to_int m.code)
      (dump_to_json m.results) c) [ none ↦ none | some c' ↦ some (none, c') ]

success : ℕ → List ℕ → MessageResult → Cache → Option (Option SolutionUpdate × Cache)
success now [] m c = some (none, c)
success now (h ∷ _) m c =
    let final = final_answer now m c in
    let point = one_point now m c in
    if h == 97
    then some (none, c)
    else if h == 65
    then final
    else if is_digit h
    then point
    else some (none, c)

-- The update of the database, if there is one, and the new cache; `none` waits for its lock. Every
-- code but SUCCESS, which is 0, does nothing.
pub result_handle : ℕ → MessageResult → Cache → Option (Option SolutionUpdate × Cache)
result_handle now m c = elim (m.code == 0) [ true ↦ success now m.msg m c | false ↦ some (none, c) ]
