-- ===== src/Site/Routes/Tests.antt =====
-- Runs and instances of the theorems on the routes.
use new_rojcpp.Prelude.{ℕ, refl, List, [], ◌∷◌, Bool, false, bytes_beq, if◌then◌else◌}
use new_rojcpp.Prelude.Decimal.{digits, digits_value}
use new_rojcpp.Prelude.Text.{codes}
use new_rojcpp.Site.Tables.{Database, row, no_fields}
use new_rojcpp.Site.Routes.{JudgeEntiy}
use new_rojcpp.Site.Routes.Submission.{
  IsSubmitted, solution_text, code_text, full_text, handle_judge_msg-IsSubmitted,
}

abbrev submission : JudgeEntiy
submission = record {
  language = codes "cpp";
  code = codes "int main(){}";
  pid = codes "9";
  memory_limit = 128;
  time_limit = 1000;
}

-- The query for the number ends with "id;".
abbrev ends_with_semicolon : List ℕ → Bool
ends_with_semicolon [] = false
ends_with_semicolon (c ∷ []) = false
ends_with_semicolon (c ∷ d ∷ []) = bytes_beq (c ∷ d ∷ []) (codes "d;")
ends_with_semicolon (c ∷ d ∷ e ∷ es) = ends_with_semicolon (d ∷ e ∷ es)

abbrev database : Database
database text = if ends_with_semicolon text then row (codes "17" ∷ []) else no_fields

handle_judge_msg-IsSubmitted_example : IsSubmitted database submission 17
unfolding solution_text code_text full_text digits digits_value bytes_beq
handle_judge_msg-IsSubmitted_example =
    handle_judge_msg-IsSubmitted database submission (codes "17" ∷ []) refl refl refl
