-- ===== src/Site/Tables.antt =====
-- include/curd/user.h and include/curd/judgeTable.h: the queries of the application. The database is
-- an argument: what it answers to a text. Each function returns the texts that it has executed and
-- its value, or that it has thrown.
mod Tests
use Prim.Native.String.{String}
use new_rojcpp.Prelude.{ℕ, ◌%◌, ◌^◌, List, [], ◌∷◌, ◌++◌, Option, none, some, Bool, true, false}
use new_rojcpp.Prelude.Decimal.{decimal, digits_value}
use new_rojcpp.Prelude.Text.{codes}
use new_rojcpp.Db.Query.{run, ok, thrown}
use new_rojcpp.Judge.Handler.{SolutionUpdate}
use new_rojcpp.Judge.Handler.Json.{to_string}

-- The columns of the first row, no row, no result set at all, or an error of the client library.
pub data Fetched : Type 0 where
  row : List (List ℕ) → Fetched
  no_row no_fields failed : Fetched

abbrev pub Database : Type 0
Database = List ℕ → Fetched

-- cppdb_zero_row, cppdb_zero_filed and every other cppdb_error.
pub data DbError : Type 0 where
  zero_row zero_filed other_error : DbError

-- What a function does: the texts that it executes, with a value or an exception behind them.
pub data Done {ℓ} (A : Type ℓ) : Type ℓ where
  returned : List (List ℕ) → A → Done A
  raised : List (List ℕ) → DbError → Done A

abbrev pub after {ℓ} : {A : Type ℓ} → List (List ℕ) → Done A → Done A
after texts (returned more a) = returned (texts ++ more) a
after texts (raised more e) = raised (texts ++ more) e

infixl 5 ◌>>=◌
abbrev pub ◌>>=◌ {ℓ κ} : {A : Type ℓ} {B : Type κ} → Done A → (A → Done B) → Done B
returned texts a >>= f = after texts (f a)
raised texts e >>= f = raised texts e

module _ (db : Database) where
  -- `q << … << cppdb::exec` of a query without a result: what rows there are is dropped.
  unfoldable pub exec : String → List (List ℕ) → Done (Unit {0})
  exec str params = elim (run (codes str) params) [
    | thrown e ↦ raised [] other_error
    | ok text ↦ elim (db text) [
      | failed ↦ raised (text ∷ []) other_error
      | _ ↦ returned (text ∷ []) tt
    ]
  ]

  -- The same of a query for one row, with what is thrown where there is none: cppdb_zero_row if a
  -- single value is asked for, and a plain error if it is a row type.
  unfoldable pub exec_row : DbError → String → List (List ℕ) → Done (List (List ℕ))
  exec_row e str params = elim (run (codes str) params) [
    | thrown e ↦ raised [] other_error
    | ok text ↦ elim (db text) [
      | row columns ↦ returned (text ∷ []) columns
      | no_row ↦ raised (text ∷ []) e
      | no_fields ↦ raised (text ∷ []) zero_filed
      | failed ↦ raised (text ∷ []) other_error
    ]
  ]

  -- `UserTable::add`
  unfoldable pub add_user : List ℕ → List ℕ → List ℕ → List ℕ → List ℕ → List ℕ → Done (Unit {0})
  unfolding exec
  add_user username nickname password email school role =
      exec
        "INSERT INTO users (username,nickname,password,school,email,role) VALUES ('?','?','?','?','?','?');"
        (username ∷ nickname ∷ password ∷ email ∷ school ∷ role ∷ [])

  -- `findByNameAndPasswd`: `ok` and the row. The handlers are for cppdb_zero_row and cppdb_zero_filed.
  abbrev found : Done (List (List ℕ)) → Done (Bool × List (List ℕ))
  found (returned texts columns) = returned texts (true, columns)
  found (raised texts zero_row) = returned texts (false, [])
  found (raised texts zero_filed) = returned texts (false, [])
  found (raised texts other_error) = raised texts other_error

  unfoldable pub find_by_name_and_passwd : List ℕ → List ℕ → Done (Bool × List (List ℕ))
  unfolding exec_row
  find_by_name_and_passwd username password = found (
      exec_row other_error
        "select id,nickname,email from users where username = '?' and password = '?';"
        (username ∷ password ∷ []))

  -- The value of the first column, whose text is decimal digits, cut to an `unsigned`.
  abbrev pub id_of : List (List ℕ) → ℕ
  id_of [] = 0
  id_of (column ∷ columns) = digits_value 0 column % 2 ^ 32

  unfoldable pub add_solutions : ℕ → List ℕ → ℕ → Done ℕ
  unfolding exec_row
  add_solutions owner_id problem_id lang_int =
      exec_row zero_row
        "insert into solutions (owner_id,problem_id,lang)values(?,?,'?') RETURNING id;"
        (decimal owner_id ∷ problem_id ∷ decimal lang_int ∷ [])
      >>= λ columns. returned [] (id_of columns)

  unfoldable pub update_solution : SolutionUpdate → Done (Unit {0})
  unfolding exec
  update_solution u =
      exec
        "UPDATE solutions SET result = ?, time_used = ?,memory_used = ?,mini_result = '?',score = ? WHERE id = ?;"
        (to_string (2 ^ 32) u.result
          ∷ decimal u.time_used
          ∷ decimal u.memory_used
          ∷ u.mini_result
          ∷ decimal u.score
          ∷ u.sid
          ∷ [])
      >>= λ _.
          exec "UPDATE solution_full_results SET data = '?'where solution_id = ?;"
            (u.full_result ∷ u.sid ∷ [])

  unfoldable pub add_solution_codes : ℕ → List ℕ → Done (Unit {0})
  unfolding exec
  add_solution_codes solution_id code =
      exec "insert into solution_codes (solution_id,code) values (?,'?');"
        (decimal solution_id ∷ code ∷ [])

  unfoldable pub add_solution_full_result : ℕ → Done (Unit {0})
  unfolding exec
  add_solution_full_result solution_id =
      exec "insert into solution_full_results(solution_id) values (?)" (decimal solution_id ∷ [])
