-- ===== src/Site/Body.antt =====
-- include/jsonEnity/judge.hpp and the first step of handleJudgeMsg (include/routes/judge.hpp): from the
-- body of a request to the entity of a submission, and on to the judge server.
pub mod Loaded
mod Tests
use new_rojcpp.Prelude.{ℕ, List, [], ◌∷◌, Option, none, some}
use new_rojcpp.Prelude.Dict.{lookup, bytes_eq}
use new_rojcpp.Prelude.Text.{codes}
use new_rojcpp.Judge.SendMessage.{MessageSend}
use new_rojcpp.Json.Parse.{Config}
use new_rojcpp.Json.Object.{is_string, is_int, Field, text, number, Fields, Object, loads}
use new_rojcpp.Site.Tables.{Database, Done}
use new_rojcpp.Site.Routes.{JudgeEntiy, handle_judge_msg}

-- The fields that `get_config` registers, with their types.
abbrev pub judge_fields : Fields
judge_fields =
    (codes "language", is_string)
    ∷ (codes "code", is_string)
    ∷ (codes "memoryLimit", is_int)
    ∷ (codes "timeLimit", is_int)
    ∷ (codes "pid", is_string)
    ∷ []

-- An entity as its constructor leaves it: the numbers are not set.
abbrev pub new_entity : ℕ → ℕ → Object
new_entity memory_limit time_limit =
    (codes "language", text [])
    ∷ (codes "code", text [])
    ∷ (codes "memoryLimit", number memory_limit)
    ∷ (codes "timeLimit", number time_limit)
    ∷ (codes "pid", text [])
    ∷ []

abbrev pub as_text : Option Field → List ℕ
as_text (some (text s)) = s
as_text _ = []

abbrev pub as_number : Option Field → ℕ
as_number (some (number n)) = n
as_number _ = 0

abbrev pub entity_of : Object → JudgeEntiy
entity_of o = record {
  language = as_text (lookup (codes "language") o);
  code = as_text (lookup (codes "code") o);
  pid = as_text (lookup (codes "pid") o);
  memory_limit = as_number (lookup (codes "memoryLimit") o);
  time_limit = as_number (lookup (codes "timeLimit") o);
}

module _ (walk : Config → Config) (memory_limit time_limit : ℕ) where
  -- `loads<judgeEntiy>`; `none` is undefined.
  unfoldable pub load_entity : List ℕ → Option JudgeEntiy
  load_entity body = elim (loads walk judge_fields (new_entity memory_limit time_limit) body) [
    | none ↦ none
    | some o ↦ some (entity_of o)
  ]

  -- The whole handler, from the body on.
  unfoldable pub handle_body : Database → List ℕ → Option (Done (MessageSend × List ℕ))
  unfolding load_entity
  handle_body db body = elim (load_entity body) [
    | none ↦ none
    | some j ↦ some (handle_judge_msg db j)
  ]
