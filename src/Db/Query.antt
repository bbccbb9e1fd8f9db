-- ===== src/Db/Query.antt =====
-- libs/modern_cppdb/include/sql/query.hpp: the text of a query and the parameters that take the
-- places of its question marks. A parameter is the text that `bind` makes of its value. The int
-- `cols` is not negative; the connection that executes the text is not modelled.
pub mod Run
mod Tests
use new_rojcpp.Prelude.{
  ℕ, zero, suc, ◌+◌, ◌-◌, List, [], ◌∷◌, ◌++◌, Bool, true, false, ltb, ◌==◌, if◌then◌else◌, length,
  take, drop, replicate,
}

-- The errors of `at` and of `get_query`.
pub data QueryError : Type 0 where
  overload_cols must_insert : QueryError

pub data Result {ℓ} (A : Type ℓ) : Type ℓ where
  ok : A → Result A
  thrown : QueryError → Result A

infixl 5 ◌>>=◌
abbrev pub ◌>>=◌ {ℓ κ} : {A : Type ℓ} {B : Type κ} → Result A → (A → Result B) → Result B
ok a >>= f = f a
thrown e >>= f = thrown e

pub record Query : Type 0 where
  pub query_str : List ℕ
  pub params : List (List ℕ)
  pub cols : ℕ
  pub use_fenc : Bool
  pub fenc_char : ℕ

-- `GET_STR_QUESTION_MARK_SEQ`: the places of the question marks, the first character at `i`.
unfoldable pub index_seq : ℕ → List ℕ → List ℕ
index_seq i [] = []
index_seq i (c ∷ cs) = let rest = index_seq (suc i) cs in if c == 63 then i ∷ rest else rest

unfoldable pub get_mark_size : List ℕ → ℕ
get_mark_size [] = 0
get_mark_size (c ∷ cs) = let cnt = get_mark_size cs in if c == 63 then suc cnt else cnt

-- The default values of a query.
unfoldable pub new_query : List ℕ → Query
new_query str = record {
  query_str = str;
  params = replicate (get_mark_size str) [];
  cols = 0;
  use_fenc = false;
  fenc_char = 0;
}

-- `params_[col] = text`, for a `col` that is in the array.
unfoldable pub set_param : ℕ → List ℕ → List (List ℕ) → List (List ℕ)
set_param col text [] = []
set_param zero text (p ∷ ps) = text ∷ ps
set_param (suc col) text (p ∷ ps) = p ∷ set_param col text ps

param : ℕ → List (List ℕ) → List ℕ
param col [] = []
param zero (p ∷ ps) = p
param (suc col) (p ∷ ps) = param col ps

-- `at(col) = text`
unfoldable pub assign : ℕ → List ℕ → Query → Result Query
assign col text q = elim (ltb col (get_mark_size q.query_str)) [
  | true ↦ ok (record q { params = set_param col text q.params })
  | false ↦ thrown overload_cols
]

-- `bind`
unfoldable pub bind : List ℕ → Query → Result Query
bind text q = assign q.cols text q >>= λ r. ok (record r { cols = suc q.cols })

-- `at(cols - 1) = fenc_char + at(cols) + fenc_char`, with `cols` already past the parameter.
unfoldable pub put_fenc : Query → Result Query
unfolding param
put_fenc q = elim (ltb q.cols (get_mark_size q.query_str)) [
  | true ↦
      assign (q.cols - 1) (q.fenc_char ∷ (param q.cols q.params ++ q.fenc_char ∷ [])) q >>= λ r.
      ok (record r { use_fenc = false })
  | false ↦ thrown overload_cols
]

-- `operator<<` of a value
unfoldable pub push : List ℕ → Query → Result Query
push text q = bind text q >>= λ r. elim (r.use_fenc) [ true ↦ put_fenc r | false ↦ ok r ]

-- `operator<<` of a fence; it ends without a `return`.
unfoldable pub fence : ℕ → Query → Query
fence c q = record q { use_fenc = true; fenc_char = c }

-- `reset`
unfoldable pub reset : Query → Query
reset q = record q { cols = 0; params = replicate (length q.params) [] }

-- The calls of `__each_seq`: the text up to each mark, and the parameter. What is left is the text so
-- far and `pre_index`.
unfoldable pub each_seq : List ℕ → List ℕ → List (List ℕ) → ℕ → List ℕ → List ℕ × ℕ
each_seq str [] ps pre_index last_query = (last_query, pre_index)
each_seq str (i ∷ is) [] pre_index last_query = (last_query, pre_index)
each_seq str (i ∷ is) (p ∷ ps) pre_index last_query =
    each_seq str is ps (suc i) (last_query ++ take (i - pre_index) (drop pre_index str) ++ p)

-- The text behind the last mark.
unfoldable pub with_rest : List ℕ → List ℕ × ℕ → List ℕ
with_rest str (last_query, pre_index) =
    if ltb pre_index (length str)
    then last_query ++ take (length str - pre_index) (drop pre_index str)
    else last_query

unfoldable pub get_query : Query → Result (List ℕ)
get_query q = elim (q.cols == get_mark_size q.query_str) [
  | true ↦ ok (with_rest q.query_str (each_seq q.query_str (index_seq 0 q.query_str) q.params 0 []))
  | false ↦ thrown must_insert
]

-- `query << text << … ` and the text that `exec` then sends.
unfoldable pub push_all : List (List ℕ) → Query → Result Query
push_all [] q = ok q
push_all (t ∷ ts) q = push t q >>= push_all ts

unfoldable pub run : List ℕ → List (List ℕ) → Result (List ℕ)
run str texts = push_all texts (new_query str) >>= get_query
