-- ===== src/Judge/Server/Check/Rounds.antt =====
-- How many rounds the comparison of two files takes, and what it says of an empty file.
use new_rojcpp.Prelude.{
  ℕ, zero, suc, ◌+◌, ◌-◌, ◌≡◌, ◌≤◌, ◌<◌, refl, List, [], ◌∷◌, some, Bool, true, false, ◌&&◌, inl,
  inr, arith, length, bytes_beq, ◌==◌, Bool-cases,
}
use new_rojcpp.Judge.Server.Check.{
  Reader, opened, eof, is_eofn, is_empty, read_eoln, read_line, del_line_back_space, compare_lines,
  noipstyle_check,
}

read_eoln-shorter : (cs : List ℕ) (cur : ℕ) → length (read_eoln cs cur).rest ≤ length cs
unfolding read_eoln
read_eoln-shorter [] cur = omega arith
read_eoln-shorter (c ∷ cs) cur = elim (Bool-cases (is_eofn c)) [
  | inl e ↦ rw (read_eoln, e) (omega (arith, read_eoln-shorter cs c))
  | inr e ↦ rw (read_eoln, e) (omega arith)
]

-- A line takes one character at least, if there is one.
read_line-shorter : (cs : List ℕ) → length (read_line cs).1.rest ≤ length cs - 1
unfolding read_line
read_line-shorter [] = omega arith
read_line-shorter (c ∷ cs) = elim (Bool-cases (is_eofn c)) [
  | inl e ↦ rw (read_line, e) (omega (arith, read_eoln-shorter cs c))
  | inr e ↦ elim (Bool-cases (c == 255)) [
    | inl f ↦ rw (read_line, e, f) (omega (arith, read_eoln-shorter cs 255))
    | inr f ↦ rw (read_line, e, f) (omega (arith, read_line-shorter cs))
  ]
]

compare_lines-returns :
    (rounds : ℕ) (ouf : Reader) (rest : List ℕ) (cur : ℕ)
    → length rest + 1 < rounds
    → (b : Bool) × (compare_lines rounds ouf (record { rest = rest; cur = cur }) ≡ some b)
unfolding compare_lines read_line del_line_back_space
compare_lines-returns zero ouf rest cur h = absurd (omega arith)
compare_lines-returns (suc rounds) ouf [] cur h = elim (Bool-cases (cur == 255)) [
  | inl e ↦ (true, rw (compare_lines, e))
  | inr e ↦ (true, rw (compare_lines, e))
]
compare_lines-returns (suc rounds) ouf (c ∷ cs) cur h =
    let j = (read_line (c ∷ cs)).0 in
    let ans = (read_line (c ∷ cs)).1 in
    let p = (read_line ouf.rest).0 in
    let ouf' = (read_line ouf.rest).1 in
    elim (Bool-cases (cur == 255)) [
      | inl e ↦ (true, rw (compare_lines, e))
      | inr e ↦ elim (Bool-cases (is_empty (del_line_back_space j) && eof ans)) [
        | inl f ↦ (true, rw (compare_lines, e, f))
        | inr f ↦ elim (Bool-cases (bytes_beq (del_line_back_space j) (del_line_back_space p))) [
          | inl g ↦
              let (b, k) =
                compare_lines-returns rounds ouf' ans.rest ans.cur
                  (omega (arith, h, read_line-shorter (c ∷ cs))) in
              (b, rw (compare_lines, e, f, g) k)
          | inr g ↦ (false, rw (compare_lines, e, f, g))
        ]
      ]
    ]

-- The comparison comes to an end.
pub noipstyle_check_returns :
    (rounds : ℕ) (user_output std_output : List ℕ)
    → length std_output + 1 < rounds
    → (b : Bool) × (noipstyle_check rounds user_output std_output ≡ some b)
unfolding noipstyle_check
noipstyle_check_returns rounds user_output std_output h =
    compare_lines-returns rounds (opened user_output) std_output 254 h

-- Every output is like an empty one.
pub noipstyle_check-empty :
    (user_output : List ℕ) (rounds : ℕ) → noipstyle_check (suc rounds) user_output [] ≡ some true
unfolding noipstyle_check compare_lines read_line del_line_back_space
noipstyle_check-empty user_output rounds = refl
