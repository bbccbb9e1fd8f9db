-- ===== src/Judge/Handler/Tests.antt =====
-- Runs and instances of the theorems on the handler of the judge's answers.
use new_rojcpp.Prelude.{◌-◌, ◌^◌, ◌≡◌, refl, [], ◌∷◌, arith}
use new_rojcpp.Prelude.Text.{codes}
use new_rojcpp.Prelude.Decimal.{digits}
use new_rojcpp.Judge.ResultMessage.{JudgeResult, MessageResult}
use new_rojcpp.Judge.Handler.{
  update_of, tally, tally_one, result_to_mini_result, start, mini_letter,
}
use new_rojcpp.Judge.Handler.Json.{dump_to_json, dump_all, dump_one, to_string}
use new_rojcpp.Judge.Handler.Score.{IsSummary, update_of-IsSummary}

abbrev right : JudgeResult
right = record {
  cpu_time = 3;
  real_time = 5;
  memory = 7;
  signal = 0;
  exit_code = 2 ^ 32 - 1;
  error = 0;
  result = 0;
}

abbrev late : JudgeResult
late = record right { result = 2 }

abbrev answer : MessageResult
answer = record { code = 0; key = codes "12"; msg = codes "A"; results = right ∷ late ∷ right ∷ [] }

letters : (tally answer.results start).mini_result ≡ codes "ATA"
unfolding tally tally_one result_to_mini_result mini_letter
letters = refl

json :
    dump_to_json (right ∷ [])
    ≡ codes
        "[{\"cpu_time\":3,\"real_time\":5,\"memory\":7,\"signal\":0,\"exit_code\":-1,\"error\":0,\"result\":0}]"
unfolding dump_to_json dump_all dump_one to_string digits
json = refl

update_of-IsSummary_example : IsSummary answer.results (update_of answer)
update_of-IsSummary_example = update_of-IsSummary answer (omega arith) (omega arith)
