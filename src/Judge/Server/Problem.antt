-- ===== src/Judge/Server/Problem.antt =====
-- libs/judgercpp/judge_server/src/Problem.hpp: the data files of a problem. What the file system says
-- of a directory, the names in it or that it does not exist, is an argument.
pub mod Sizes
use new_rojcpp.Prelude.{
  ℕ, ◌^◌, List, [], ◌∷◌, ◌++◌, Option, none, some, Bool, true, false, ◌&&◌, ◌||◌, ltb, leb, ◌==◌,
  length, if◌then◌else◌, bytes_beq,
}
use new_rojcpp.Prelude.Decimal.{is_digit, digits_value}
use new_rojcpp.Prelude.Text.{codes}
use new_rojcpp.Judge.Server.Args.{◌//◌}

abbrev is_word : ℕ → Bool
is_word c = leb 65 c && leb c 90 || leb 97 c && leb c 122 || c == 95

abbrev is_empty : List ℕ → Bool
is_empty [] = true
is_empty (c ∷ cs) = false

abbrev put_before : ℕ → List ℕ × List ℕ → List ℕ × List ℕ
put_before c (front, rest) = (c ∷ front, rest)

-- The longest front of characters that pass a test, and the rest.
span : (ℕ → Bool) → List ℕ → List ℕ × List ℕ
span p [] = ([], [])
span p (c ∷ cs) = elim (p c) [ true ↦ put_before c (span p cs) | false ↦ ([], c ∷ cs) ]

-- A name of letters and '_', then digits: the digits, and what follows them. The classes of the
-- regular expressions share no character, so that the longest match is the only one.
name_parts : List ℕ → Option (List ℕ × List ℕ)
unfolding span
name_parts name =
    let (word, rest) = span is_word name in
    let (ds, suffix) = span is_digit rest in
    if is_empty word || is_empty ds then none else some (ds, suffix)

-- `input_regex` and `output_regex`
pub match_input : List ℕ → Option (List ℕ)
unfolding name_parts
match_input name = elim (name_parts name) [
  | none ↦ none
  | some (ds, suffix) ↦ if bytes_beq suffix (codes ".in") then some ds else none
]

pub match_output : List ℕ → Option (List ℕ)
unfolding name_parts
match_output name = elim (name_parts name) [
  | none ↦ none
  | some (ds, suffix) ↦
      if bytes_beq suffix (codes ".out") || bytes_beq suffix (codes ".ans") then some ds else none
]

abbrev pub DataFile : Type 0
DataFile = ℕ × List ℕ

pub record Problem : Type 0 where
  pub input_data : List DataFile
  pub output_data : List DataFile

-- `stoi`, which throws where the number is no `int`.
stoi : List ℕ → Option ℕ
stoi ds = let n = digits_value 0 ds in if ltb n (2 ^ 31) then some n else none

-- One round of the loop over the directory.
with_name : List ℕ → List ℕ → Problem → Option Problem
unfolding stoi match_input match_output
with_name data_path name p = elim (match_input name) [
  | some ds ↦ elim (stoi ds) [
    | none ↦ none
    | some n ↦ some (record p { input_data = p.input_data ++ (n, data_path // name) ∷ [] })
  ]
  | none ↦ elim (match_output name) [
    | some ds ↦ elim (stoi ds) [
      | none ↦ none
      | some n ↦ some (record p { output_data = p.output_data ++ (n, data_path // name) ∷ [] })
    ]
    | none ↦ some p
  ]
]

unfoldable pub with_names : List ℕ → List (List ℕ) → Problem → Option Problem
unfolding with_name
with_names data_path [] p = some p
with_names data_path (name ∷ names) p = elim (with_name data_path name p) [
  | none ↦ none
  | some p' ↦ with_names data_path names p'
]

-- `std::sort` of the pairs: by number, then by path.
less_path : List ℕ → List ℕ → Bool
less_path s [] = false
less_path [] (d ∷ t) = true
less_path (c ∷ s) (d ∷ t) = ltb c d || c == d && less_path s t

abbrev less_file : DataFile → DataFile → Bool
less_file (n, s) (m, t) = ltb n m || n == m && less_path s t

put_sorted : DataFile → List DataFile → List DataFile
put_sorted f [] = f ∷ []
put_sorted f (g ∷ gs) = elim (less_file g f) [ true ↦ g ∷ put_sorted f gs | false ↦ f ∷ g ∷ gs ]

unfoldable pub sorted : List DataFile → List DataFile
unfolding put_sorted less_path
sorted [] = []
sorted (f ∷ fs) = put_sorted f (sorted fs)

-- The constructor from the names of the files in `data`, if both directories exist; `none` throws.
unfoldable pub load_problem : List ℕ → Option (List (List ℕ)) → Option Problem
unfolding with_names sorted
load_problem path none = none
load_problem path (some names) =
    elim (with_names (path // codes "data") names (record { input_data = []; output_data = [] })) [
      | none ↦ none
      | some p ↦ elim (length p.input_data == length p.output_data) [
        | true ↦
            some (record { input_data = sorted p.input_data; output_data = sorted p.output_data })
        | false ↦ none
      ]
    ]
