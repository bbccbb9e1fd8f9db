-- ===== src/Judge/Server/Check.antt =====
-- libs/judgercpp/judge_server/src/check.hpp: the comparison of two output files. A file is its bytes;
-- one that cannot be opened reads as an empty one. A `char` is its bit pattern, so that EOF is 255,
-- like the byte 0xff, and the initial value of `cur` is 254.
pub mod Rounds
use new_rojcpp.Prelude.{
  ℕ, zero, suc, List, [], ◌∷◌, Option, none, some, Bool, true, false, ◌&&◌, ◌||◌, ◌==◌,
  if◌then◌else◌, bytes_beq,
}
use mathlib.Core.List.{reverse}

-- Reader: what is left of the file, and the last character read.
pub record Reader : Type 0 where
  pub rest : List ℕ
  pub cur : ℕ

abbrev pub opened : List ℕ → Reader
opened file = record { rest = file; cur = 254 }

abbrev pub eof : Reader → Bool
eof r = r.cur == 255

abbrev is_eofn : ℕ → Bool
is_eofn c = c == 13 || c == 10

-- `readEoln`, by what is left
read_eoln : List ℕ → ℕ → Reader
read_eoln [] cur = record { rest = []; cur = cur }
read_eoln (c ∷ cs) cur = elim (is_eofn c) [
  | true ↦ read_eoln cs c
  | false ↦ record { rest = c ∷ cs; cur = cur }
]

abbrev with_char : ℕ → List ℕ × Reader → List ℕ × Reader
with_char c (line, r) = (c ∷ line, r)

-- `readLine`, by what is left: the characters up to the end of a line or of the file.
unfoldable pub read_line : List ℕ → List ℕ × Reader
unfolding read_eoln
read_line [] = ([], record { rest = []; cur = 255 })
read_line (c ∷ cs) = elim (is_eofn c) [
  | true ↦ ([], read_eoln cs c)
  | false ↦ elim (c == 255) [ true ↦ ([], read_eoln cs 255) | false ↦ with_char c (read_line cs) ]
]

-- `del_line_back_space`
drop_spaces : List ℕ → List ℕ
drop_spaces [] = []
drop_spaces (c ∷ cs) = elim (c == 10 || c == 32 || c == 13) [
  | true ↦ drop_spaces cs
  | false ↦ c ∷ cs
]

unfoldable pub del_line_back_space : List ℕ → List ℕ
unfolding drop_spaces
del_line_back_space str = reverse (drop_spaces (reverse str))

abbrev is_empty : List ℕ → Bool
is_empty [] = true
is_empty (c ∷ cs) = false

-- The loop of `noipstyle_check`, with the rounds left.
unfoldable pub compare_lines : ℕ → Reader → Reader → Option Bool
unfolding read_line del_line_back_space
compare_lines zero ouf ans = none
compare_lines (suc rounds) ouf ans = elim (eof ans) [
  | true ↦ some true
  | false ↦
      let (j, ans') = read_line ans.rest in
      elim (is_empty (del_line_back_space j) && eof ans') [
        | true ↦ some true
        | false ↦
            let (p, ouf') = read_line ouf.rest in
            elim (bytes_beq (del_line_back_space j) (del_line_back_space p)) [
              | true ↦ compare_lines rounds ouf' ans'
              | false ↦ some false
            ]
      ]
]

-- `noipstyle_check` of the contents of two files
unfoldable pub noipstyle_check : ℕ → List ℕ → List ℕ → Option Bool
noipstyle_check rounds user_output std_output =
    compare_lines rounds (opened user_output) (opened std_output)
