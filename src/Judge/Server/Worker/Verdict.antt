-- ===== src/Judge/Server/Worker/Verdict.antt =====
-- What the verdict on a test point depends on.
use new_rojcpp.Prelude.{ℕ, ◌≡◌, List, [], some, true, false, not, ◌||◌, inl, inr, Bool-cases, ◌==◌}
use new_rojcpp.Judge.ResultMessage.{JudgeResult}
use new_rojcpp.Judge.Server.Args.{JudgeArgs}
use new_rojcpp.Judge.Server.Check.Rounds.{noipstyle_check-empty}
use new_rojcpp.Judge.Server.Worker.{World, run_judger, compared, over_memory, judge}

-- The verdict where the outputs are not compared: a result without an error is turned into one over
-- the memory limit, or stays.
abbrev pub measured : (w : World) → JudgeArgs → JudgeResult → JudgeResult
measured w args res = elim (not (res.error == 0) || not (res.result == 0)) [
  | true ↦ res
  | false ↦ elim (over_memory w args res) [ true ↦ record res { result = 3 } | false ↦ res ]
]

compared-empty :
    (w : World) (args : JudgeArgs) (out_file : List ℕ) (res : JudgeResult)
    → w.file out_file ≡ []
    → compared w args out_file res ≡ some res
unfolding compared
compared-empty w args out_file res h =
    rw (compared, h, noipstyle_check-empty (w.file args.output_path) 1)

-- If no file of the name that the worker passes for the right output is in its working directory,
-- the verdict is made from what the judger measured alone: the output of the program is not compared
-- with anything, whatever it is, and is accepted unless the judger found an error or the memory was
-- exceeded.
pub judge-measured :
    (w : World) (args : JudgeArgs) (out_file : List ℕ) (res : JudgeResult)
    → run_judger w args ≡ some res
    → w.file out_file ≡ []
    → judge w args out_file ≡ some (measured w args res)
unfolding judge
judge-measured w args out_file res r h =
    elim (Bool-cases (not (res.error == 0) || not (res.result == 0))) [
      | inl e ↦ rw (judge, r, measured, e)
      | inr e ↦ elim (Bool-cases (over_memory w args res)) [
        | inl m ↦ rw (judge, r, measured, e, m)
        | inr m ↦ rw (judge, r, measured, e, m, compared-empty w args out_file res h)
      ]
    ]
