-- ===== src/Site/Routes/Submission.antt =====
-- A submission, from the route to the request that the judge server gets.
use new_rojcpp.Prelude.{
  ℕ, ◌^◌, ◌≡◌, ◌<◌, sym, ap, ◌∙◌, List, [], ◌∷◌, ◌++◌, arith, ltb, true, append-nil,
}
use new_rojcpp.Prelude.Decimal.{
  decimal, digits, digits-value, digits-AreBelow, digits_value, digits_value-map,
}
use new_rojcpp.Prelude.Text.{codes}
use mathlib.Core.List.{reverse}
use new_rojcpp.Db.Query.{run, ok, get_mark_size}
use new_rojcpp.Db.Query.Run.{run-outcome, substitute}
use new_rojcpp.Judge.Handler.{int_sid}
use new_rojcpp.Site.Tables.{
  Database, returned, row, exec, exec_row, id_of, add_solutions, add_solution_codes,
  add_solution_full_result, no_fields,
}
use new_rojcpp.Site.Routes.{JudgeEntiy, lang_to_int, send, ok_content, handle_judge_msg}

-- The texts of the three queries: what the user sent stands in them as it is.
unfoldable pub solution_text : JudgeEntiy → List ℕ
unfolding lang_to_int
solution_text j =
    codes "insert into solutions (owner_id,problem_id,lang)values("
    ++ (decimal 62
        ++ (codes ","
            ++ (j.pid
                ++ (codes ",'" ++ (decimal (lang_to_int j.language) ++ codes "') RETURNING id;")))))

unfoldable pub code_text : ℕ → JudgeEntiy → List ℕ
code_text id j =
    codes "insert into solution_codes (solution_id,code) values ("
    ++ (decimal id ++ (codes ",'" ++ (j.code ++ codes "');")))

unfoldable pub full_text : ℕ → List ℕ
full_text id =
    codes "insert into solution_full_results(solution_id) values (" ++ (decimal id ++ codes ")")

solution-run :
    (j : JudgeEntiy)
    → run
        (codes "insert into solutions (owner_id,problem_id,lang)values(?,?,'?') RETURNING id;")
        (decimal 62 ∷ j.pid ∷ decimal (lang_to_int j.language) ∷ [])
      ≡ ok (solution_text j)
unfolding solution_text substitute get_mark_size
solution-run j = run-outcome _ (decimal 62 ∷ j.pid ∷ decimal (lang_to_int j.language) ∷ [])

code-run :
    (id : ℕ) (j : JudgeEntiy)
    → run
        (codes "insert into solution_codes (solution_id,code) values (?,'?');")
        (decimal id ∷ j.code ∷ [])
      ≡ ok (code_text id j)
unfolding code_text substitute get_mark_size
code-run id j = run-outcome _ (decimal id ∷ j.code ∷ [])

full-run :
    (id : ℕ)
    → run (codes "insert into solution_full_results(solution_id) values (?)") (decimal id ∷ [])
      ≡ ok (full_text id)
unfolding full_text substitute get_mark_size
full-run id = run-outcome _ (decimal id ∷ [])

-- The handler of the answers reads a number back from its digits.
int_sid-decimal : (n : ℕ) → n < 2 ^ 64 → int_sid (decimal n) ≡ n
unfolding int_sid
int_sid-decimal n h =
    let read : digits_value 0 (decimal n) ≡ n =
      ap (digits_value 0) (sym (append-nil (decimal n)))
      ∙ digits_value-map 0 (reverse (digits n)) [] (digits-AreBelow n) tt
      ∙ digits-value n in
    let small : ltb n (2 ^ 64) ≡ true = ground arith in rw (int_sid, read, small)

id_of-lt : (db : Database) (columns : List (List ℕ)) → id_of db columns < 2 ^ 64
id_of-lt db [] = omega arith
id_of-lt db (column ∷ columns) = omega arith

-- What a submission does, once the database has given it the number `id`.
pub record IsSubmitted (db : Database) (j : JudgeEntiy) (id : ℕ) : Type 0 where
  pub does :
      handle_judge_msg db j
      ≡ returned (solution_text j ∷ code_text id j ∷ full_text id ∷ []) (
        record {
          key = decimal id;
          code = j.code;
          language = j.language;
          pid = j.pid;
          time_limit = j.time_limit;
          memory_limit = j.memory_limit;
        },
        ok_content,
      )
  pub comes_back : int_sid (send (decimal id) j).key ≡ id

-- If the database answers the first query with a row, and the other two without a result set, a
-- submission executes the three queries in this order, with the problem's name and the program in
-- them as they are, and sends the judge server the program, the language, the problem and the limits
-- under a key from which the handler of the answers reads the number of the solution again, which is
-- the database's cut to 32 bits.
pub handle_judge_msg-IsSubmitted :
    (db : Database) (j : JudgeEntiy) (columns : List (List ℕ))
    → db (solution_text j) ≡ row columns
    → db (code_text (id_of db columns) j) ≡ no_fields
    → db (full_text (id_of db columns)) ≡ no_fields
    → IsSubmitted db j (id_of db columns)
unfolding handle_judge_msg add_solutions add_solution_codes add_solution_full_result exec exec_row
    send
handle_judge_msg-IsSubmitted db j columns a b c =
    let id = id_of db columns in
    record {
      does = rw (
        handle_judge_msg,
        add_solutions,
        exec_row,
        solution-run j,
        a,
        add_solution_codes,
        exec,
        code-run id j,
        b,
        add_solution_full_result,
        full-run id,
        c,
      );
      comes_back = int_sid-decimal id (id_of-lt db columns);
    }
