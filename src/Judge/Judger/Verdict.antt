-- ===== src/Judge/Judger/Verdict.antt =====
-- The verdict of the judger, by the first reason that counts.
use new_rojcpp.Prelude.{
  ℕ, ◌≡◌, refl, true, false, not, ◌||◌, ◌==◌, if◌then◌else◌, inl, inr, arith, Bool-cases,
}
use new_rojcpp.Judge.ResultMessage.{JudgeResult}
use new_rojcpp.Judge.Judger.{Limits, Ended, ended, exceeds, measured, classified, run}

-- The reasons from the strongest to the weakest, after SIGUSR1. The real time has no part in it.
abbrev pub program_verdict : Limits → JudgeResult → ℕ
program_verdict l r =
    if r.signal == 11
    then (if exceeds l.max_memory r.memory then 3 else 4)
    else if exceeds l.max_cpu_time r.cpu_time
    then 1
    else if exceeds l.max_memory r.memory
    then 3
    else if not (r.signal == 0) || not (r.exit_code == 0)
    then 4
    else 0

abbrev pub verdict_of : Limits → JudgeResult → ℕ
verdict_of l r = if r.signal == 10 then 5 else program_verdict l r

-- Without a real time the later checks win.
classified-real :
    (l : Limits) (r : JudgeResult) → r.real_time ≡ 0 → classified l r ≡ program_verdict l r
unfolding classified
classified-real l r z =
    let real : exceeds l.max_real_time r.real_time ≡ false = ground (arith, z) in
    elim (Bool-cases (r.signal == 11)) [
      | inl v ↦ rw (classified, program_verdict, v) refl
      | inr v ↦ elim (Bool-cases (exceeds l.max_cpu_time r.cpu_time)) [
        | inl c ↦ rw (classified, program_verdict, v, c) refl
        | inr c ↦ elim (Bool-cases (exceeds l.max_memory r.memory)) [
          | inl m ↦ rw (classified, program_verdict, v, real, c, m) refl
          | inr m ↦ elim (Bool-cases (r.signal == 0)) [
            | inl g ↦ rw (classified, program_verdict, v, real, c, m, g) (ground arith)
            | inr g ↦ rw (classified, program_verdict, v, real, c, m, g) refl
          ]
        ]
      ]
    ]

-- The verdict on a program that ended, in a judger of root's: a system error if SIGUSR1 ended it;
-- after SIGSEGV the memory limit if it is exceeded and a run-time error if not; in all other cases
-- the CPU time limit before the memory limit, these before a signal or an exit code, and accepted
-- otherwise. The limit of the real time never decides, whatever it is.
pub run-verdict_of :
    (e : Ended) (l : Limits) → (run true (ended e) l).result ≡ verdict_of l (measured e)
unfolding run measured classified
run-verdict_of e l = elim (Bool-cases ((measured e).signal == 10)) [
  | inl u ↦ rw (run, u, verdict_of) refl
  | inr u ↦ rw (run, u, verdict_of) (classified-real l (measured e) refl)
]
