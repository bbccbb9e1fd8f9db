-- ===== src/Judge/Server/Worker/Started.antt =====
-- `__judger` (libs/judgercpp/judge_server/src/judgeWorkPool.hpp) with the judger of
-- libs/judgercpp/judge_core.cpp behind it.
use new_rojcpp.Prelude.{
  ℕ, ◌^◌, ◌<◌, ◌≡◌, refl, List, ◌++◌, some, Bool, true, false, arith, ◌==◌, Bool-cases, inl, inr,
}
use new_rojcpp.Prelude.Text.{codes, all_are-AllAre}
use new_rojcpp.Judge.ResultMessage.{JudgeResult}
use new_rojcpp.Judge.ResultMessage.RoundTrip.{IsPattern}
use new_rojcpp.Judge.Judger.{
  Child, fork_failed, wait_failed, ended, Limits, run, measured, classified, print_result,
}
use new_rojcpp.Judge.Judger.CommandLine.{main, wrote}
use new_rojcpp.Judge.Judger.CommandLine.Shell.{IsShell, is_bare}
use new_rojcpp.Judge.Judger.CommandLine.Settings.{IsReadable}
use new_rojcpp.Judge.Judger.CommandLine.RoundTrip.{config_of, main-command_line}
use new_rojcpp.Judge.Server.Args.{JudgeArgs, command_line}
use new_rojcpp.Judge.Server.Output.RoundTrip.{scan_result-print_result}
use new_rojcpp.Judge.Server.Worker.{World, run_judger, judger_bin}

-- What the judger writes comes to the judge server. It is started by the shell, and its program ends
-- as `child` says.
abbrev pub IsJudger : World → (List ℕ → List (List ℕ)) → Bool → Child → Type 0
IsJudger w words root child =
    (line text : List ℕ) → main root child (words line) ≡ wrote text → w.judger line ≡ some text

-- WTERMSIG is below 128 and WEXITSTATUS below 256.
abbrev pub IsChild : Child → Type 0
IsChild (ended e) = (e.term_sig < 128) × (e.exit_status < 256)
IsChild _ = Unit

classified-lt : (l : Limits) (r : JudgeResult) → classified l r < 2 ^ 32
unfolding classified
classified-lt l r = ground arith

run-IsPattern :
    (root : Bool) (child : Child) (l : Limits) → IsChild child → IsPattern (run root child l)
unfolding run measured
run-IsPattern false child l h = omega arith
run-IsPattern true fork_failed l h = omega arith
run-IsPattern true wait_failed l h = omega arith
run-IsPattern true (ended e) l h = elim (Bool-cases ((measured e).signal == 10)) [
  | inl usr ↦ rw usr (omega arith)
  | inr other ↦ rw other (record {
    cpu_fits = omega arith;
    real_fits = omega arith;
    memory_fits = omega arith;
    signal_fits = ground (arith, h.0);
    exit_fits = omega (arith, h.1);
    error_fits = omega arith;
    result_fits = classified-lt l (measured e);
  })
]

-- `__judger` starts the judger and reads what it wrote: that is the judger's verdict under the limits
-- among the arguments, with its measurements, if the arguments are readable: numbers in range, texts
-- not empty and without characters that mean something between quotes. The shell in between is any
-- that cuts such a line into its words.
pub run_judger-run :
    (w : World) (words : List ℕ → List (List ℕ)) (root : Bool) (child : Child) (args : JudgeArgs)
    → IsShell words
    → IsJudger w words root child
    → IsChild child
    → IsReadable args
    → run_judger w args ≡ some (run root child (config_of args).limits)
unfolding run_judger
run_judger-run w words root child args shell judger c h =
    let result = run root child (config_of args).limits in
    let text = judger (judger_bin ++ command_line args) (print_result result) (
      main-command_line words (codes "usr/bin/judger_core") args root child shell
        (all_are-AllAre is_bare (codes "usr/bin/judger_core") refl) h) in
    rw (run_judger, text)
      (scan_result-print_result result (run-IsPattern root child (config_of args).limits c))
