-- ===== src/Judge/Server/Problem/Sizes.antt =====
-- A problem that is loaded has as many input files as output files.
use new_rojcpp.Prelude.{
  ℕ, suc, ◌≡◌, refl, sym, ap, ◌∙◌, List, [], ◌∷◌, Option, none, some, inl, inr, arith, length, ◌==◌,
  Bool-cases, Option-cases,
}
use new_rojcpp.Prelude.Text.{codes}
use new_rojcpp.Judge.Server.Args.{◌//◌}
use new_rojcpp.Judge.Server.Problem.{
  DataFile, Problem, less_file, put_sorted, sorted, with_names, load_problem,
}

length-put_sorted : (f : DataFile) (gs : List DataFile) → length (put_sorted f gs) ≡ suc (length gs)
unfolding put_sorted
length-put_sorted f [] = refl
length-put_sorted f (g ∷ gs) = elim (Bool-cases (less_file g f)) [
  | inl e ↦ rw (put_sorted, e) (ap suc (length-put_sorted f gs))
  | inr e ↦ rw (put_sorted, e) refl
]

length-sorted : (fs : List DataFile) → length (sorted fs) ≡ length fs
unfolding sorted
length-sorted [] = refl
length-sorted (f ∷ fs) = length-put_sorted f (sorted fs) ∙ ap suc (length-sorted fs)

abbrev inputs : Option Problem → ℕ
inputs none = 0
inputs (some p) = length p.input_data

abbrev outputs : Option Problem → ℕ
outputs none = 0
outputs (some p) = length p.output_data

pub load_problem-sizes :
    (path : List ℕ) (names : Option (List (List ℕ))) (p : Problem)
    → load_problem path names ≡ some p
    → length p.input_data ≡ length p.output_data
unfolding load_problem
load_problem-sizes path none p h = absurd (ground (arith, h))
load_problem-sizes path (some names) p h =
    elim (Option-cases
      (with_names (path // codes "data") names (record { input_data = []; output_data = [] }))) [
        | inl e ↦ absurd (ground (arith, rw (load_problem, e) at h))
        | inr (q, e) ↦ elim (Bool-cases (length q.input_data == length q.output_data)) [
          | inl same ↦
              let loaded = rw (load_problem, e, same) at h in
              sym (ap inputs loaded)
              ∙ length-sorted q.input_data
              ∙ ground (arith, same)
              ∙ sym (length-sorted q.output_data)
              ∙ ap outputs loaded
          | inr other ↦ absurd (ground (arith, rw (load_problem, e, other) at h))
        ]
      ]
