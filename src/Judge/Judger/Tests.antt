-- ===== src/Judge/Judger/Tests.antt =====
-- Runs and instances of the theorems on the judger.
use new_rojcpp.Prelude.{◌≡◌, refl, true, false}
use new_rojcpp.Judge.Judger.{Limits, Ended, ended, measured, run}
use new_rojcpp.Judge.Judger.Verdict.{verdict_of, run-verdict_of}

abbrev limits : Limits
limits = record {
  max_cpu_time = 1000;
  max_real_time = 1;
  max_process_number = 10;
  memory_limit_check_only = false;
  max_output_size = 0;
  max_memory = 4096;
  max_stack = 0;
}

-- It used too much of both, and left with an exit code.
abbrev greedy : Ended
greedy = record {
  signaled = false;
  term_sig = 0;
  exit_status = 3;
  utime_sec = 2;
  utime_usec = 500;
  maxrss = 5;
}

time_first : (run true (ended greedy) limits).result ≡ 1
unfolding run
time_first = refl

run-verdict_of_example :
    (run true (ended greedy) limits).result ≡ verdict_of limits (measured greedy)
run-verdict_of_example = run-verdict_of greedy limits
