-- ===== src/Site/Routes.antt =====
-- include/routes/user.hpp and include/routes/judge.hpp: the handlers of the routes,
-- from what the JSON library has read in a body; Site/Body has the step before.
pub mod Submission
mod Tests
use new_rojcpp.Prelude.{
  ℕ, List, [], ◌∷◌, ◌++◌, Option, none, some, Bool, true, false, ◌||◌, if◌then◌else◌, bytes_beq,
}
use new_rojcpp.Prelude.Decimal.{decimal}
use new_rojcpp.Prelude.Text.{codes}
use new_rojcpp.Judge.SendMessage.{MessageSend}
use new_rojcpp.Site.Tables.{
  Database, Done, returned, raised, ◌>>=◌, find_by_name_and_passwd, add_solutions,
  add_solution_codes, add_solution_full_result,
}

-- `lang_to_int`
unfoldable pub lang_to_int : List ℕ → ℕ
lang_to_int lang_name =
    if bytes_beq lang_name (codes "cpp") || bytes_beq lang_name (codes "c++") then 1 else 0

-- `judgeEntiy` (include/jsonEnity/judge.hpp); the limits are `int`s, as bit patterns.
pub record JudgeEntiy : Type 0 where
  pub language : List ℕ
  pub code : List ℕ
  pub pid : List ℕ
  pub memory_limit : ℕ
  pub time_limit : ℕ

-- The content of the answer, always of the type JSON and with the status ok.
abbrev pub ok_content : List ℕ
ok_content = codes "{msg:\"ok\",code:1}"

-- `send` of the server, with the key of the solution.
unfoldable pub send : List ℕ → JudgeEntiy → MessageSend
send key j = record {
  key = key;
  code = j.code;
  language = j.language;
  pid = j.pid;
  time_limit = j.time_limit;
  memory_limit = j.memory_limit;
}

module _ (db : Database) where
  -- `handleJudgeMsg`: what is sent to the judge server, and the content of the answer.
  unfoldable pub handle_judge_msg : JudgeEntiy → Done (MessageSend × List ℕ)
  unfolding send lang_to_int
  handle_judge_msg j = add_solutions db 62 j.pid (lang_to_int j.language) >>= λ solution_id.
      add_solution_codes db solution_id j.code >>= λ _.
      add_solution_full_result db solution_id >>= λ _.
      returned [] (send (decimal solution_id) j, ok_content)

  -- `user_login`: the content of the answer does not depend on what was found.
  unfoldable pub user_login : List ℕ → List ℕ → Done (List ℕ)
  unfolding find_by_name_and_passwd
  user_login username password =
      find_by_name_and_passwd db username password >>= λ _. returned [] ok_content
