-- ===== src/Judge/ResultMessage/Tests.antt =====
-- Runs and instances of the theorems on the answers of the judge server.
use new_rojcpp.Prelude.{◌+◌, ◌-◌, ◌^◌, ◌≡◌, refl, [], ◌∷◌, ◌++◌, some, arith, length, ◌<◌}
use new_rojcpp.Judge.Wire.{push_back, push_back_text, append_message}
use new_rojcpp.Judge.ResultMessage.{
  JudgeResult, MessageResult, dumps, dump_results, dump_result, loads,
}
use new_rojcpp.Judge.ResultMessage.RoundTrip.{IsAnswer, loads-dumps_result}

-- Exit code -1, as a pattern, and more memory than 32 bits hold.
abbrev point : JudgeResult
point = record {
  cpu_time = 3;
  real_time = 5;
  memory = 2 ^ 33 + 7;
  signal = 0;
  exit_code = 2 ^ 32 - 1;
  error = 0;
  result = 4;
}

abbrev answer : MessageResult
answer = record { code = 0; key = 49 ∷ 50 ∷ []; msg = 65 ∷ []; results = point ∷ [] }

abbrev blank : MessageResult
blank = record { code = 0; key = []; msg = []; results = [] }

header :
    dumps (record answer { results = [] })
    ≡ 0 ∷ 0 ∷ 0 ∷ 0 ∷ 0 ∷ 0 ∷ 0 ∷ 2 ∷ 49 ∷ 50 ∷ 0 ∷ 0 ∷ 0 ∷ 1 ∷ 65 ∷ 0 ∷ 0 ∷ 0 ∷ 0 ∷ []
unfolding dumps dump_results append_message push_back push_back_text
header = refl

answer-IsAnswer : IsAnswer answer
answer-IsAnswer = omega arith

answer_short : length (dumps answer ++ 1 ∷ []) < 2 ^ 31
unfolding dumps dump_results dump_result append_message push_back push_back_text
answer_short = omega arith

loads-dumps_result_example : loads blank (dumps answer ++ 1 ∷ []) ≡ some answer
loads-dumps_result_example = loads-dumps_result blank answer (1 ∷ []) answer-IsAnswer answer_short
