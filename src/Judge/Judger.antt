-- ===== src/Judge/Judger.antt =====
-- libs/judgercpp/src/run.hpp: how the judger turns the end of the program into a verdict, and the
-- limits that child_process (libs/judgercpp/src/child_process.hpp) sets. The system calls are not
-- modelled: what fork and wait4 answer is an argument. `int`s are 32-bit patterns and a `long` is one
-- of 64 bits; RESULT begins with zeros.
pub mod Verdict
pub mod CommandLine
mod Tests
use new_rojcpp.Prelude.{
  ℕ, ◌+◌, ◌-◌, ◌*◌, ◌/◌, ◌%◌, ◌^◌, List, [], ◌∷◌, ◌++◌, Option, none, some, Bool, true, false, not,
  ◌&&◌, ltb, ◌==◌, if◌then◌else◌,
}
use new_rojcpp.Prelude.Decimal.{decimal}
use new_rojcpp.Judge.ResultMessage.{JudgeResult}

-- The limits of `config`, 0 for none.
pub record Limits : Type 0 where
  pub max_cpu_time : ℕ
  pub max_real_time : ℕ
  pub max_process_number : ℕ
  pub memory_limit_check_only : Bool
  pub max_output_size : ℕ
  pub max_memory : ℕ
  pub max_stack : ℕ

-- What WIFSIGNALED, WTERMSIG and WEXITSTATUS make of the status, and the resources used.
pub record Ended : Type 0 where
  pub signaled : Bool
  pub term_sig : ℕ
  pub exit_status : ℕ
  pub utime_sec : ℕ
  pub utime_usec : ℕ
  pub maxrss : ℕ

pub data Child : Type 0 where
  fork_failed wait_failed : Child
  ended : Ended → Child

abbrev pub zeros : JudgeResult
zeros = record {
  cpu_time = 0;
  real_time = 0;
  memory = 0;
  signal = 0;
  exit_code = 0;
  error = 0;
  result = 0;
}

-- ERROR_EXIT of a code that is -n.
abbrev pub error_exit : ℕ → JudgeResult
error_exit n = record zeros { error = 2 ^ 32 - n }

-- What is read before the verdict is made.
unfoldable pub measured : Ended → JudgeResult
measured e = record zeros {
  signal = if e.signaled then e.term_sig else 0;
  exit_code = e.exit_status;
  cpu_time = (e.utime_sec * 1000 + e.utime_usec / 1000) % 2 ^ 32;
  memory = e.maxrss * 1024 % 2 ^ 64;
}

-- A limit that is set and exceeded.
abbrev pub exceeds : ℕ → ℕ → Bool
exceeds limit used = not (limit == 0) && ltb limit used

-- RUNTIME_ERROR is 4, MEMORY_LIMIT_EXCEEDED 3, REAL_TIME_LIMIT_EXCEEDED 2 and
-- CPU_TIME_LIMIT_EXCEEDED 1: the checks one after the other, each on the result before it.
unfoldable pub classified : Limits → JudgeResult → ℕ
classified l r =
    let exited = if r.exit_code == 0 then 0 else 4 in
    if r.signal == 11
    then (if exceeds l.max_memory r.memory then 3 else 4)
    else (let signalled = if r.signal == 0 then exited else 4 in
        let memory = if exceeds l.max_memory r.memory then 3 else signalled in
        let real = if exceeds l.max_real_time r.real_time then 2 else memory in
        if exceeds l.max_cpu_time r.cpu_time then 1 else real)

-- SIGUSR1 is 10, SIGSEGV is 11 and SYSTEM_ERROR is 5; ROOT_REQUIRED is -5, FORK_FAILED is -2 and
-- WAIT_FAILED is -4. The first argument says whether the process is root's.
unfoldable pub run : Bool → Child → Limits → JudgeResult
unfolding measured classified
run false child l = error_exit 5
run true fork_failed l = error_exit 2
run true wait_failed l = error_exit 4
run true (ended e) l =
    let r = measured e in
    if r.signal == 10
    then record zeros { signal = 10; result = 5 }
    else record r { result = classified l r }

-- What `<<` writes for an `int` or a `long`, whose patterns go up to twice `half`.
abbrev pub signed_text : ℕ → ℕ → List ℕ
signed_text half n = if ltb n half then decimal n else b'-' ∷ decimal (2 * half - n)

abbrev pub printed_line : List ℕ → List ℕ → List ℕ
printed_line t rest = t ++ 32 ∷ 10 ∷ rest

-- `print_result` (libs/judgercpp/src/utils.hpp): each number with a blank and the end of the line.
unfoldable pub print_result : JudgeResult → List ℕ
print_result r = printed_line (signed_text (2 ^ 31) r.cpu_time) (
    printed_line (signed_text (2 ^ 31) r.real_time) (
      printed_line (signed_text (2 ^ 63) r.memory) (
        printed_line (signed_text (2 ^ 31) r.signal) (
          printed_line (signed_text (2 ^ 31) r.exit_code) (
            printed_line (signed_text (2 ^ 31) r.error)
              (printed_line (signed_text (2 ^ 31) r.result) []))))))

-- The resources that child_process limits.
pub data Resource : Type 0 where
  rlimit_stack rlimit_as rlimit_cpu rlimit_nproc rlimit_fsize : Resource

-- `__do_serlimit`: nothing is set where there is no limit.
abbrev do_serlimit : ℕ → Resource → ℕ → List (Resource × ℕ)
do_serlimit member resource value = if member == 0 then [] else (resource, value) ∷ []

-- The limits in the order in which they are set; products and sums of `config`'s fields wrap.
pub child_limits : Limits → List (Resource × ℕ)
child_limits l =
    do_serlimit l.max_stack rlimit_stack l.max_stack
    ++ (if l.memory_limit_check_only
        then []
        else do_serlimit l.max_memory rlimit_as (l.max_memory * 2 % 2 ^ 64))
    ++ do_serlimit l.max_cpu_time rlimit_cpu ((l.max_cpu_time + 1000) % 2 ^ 32 / 1000)
    ++ do_serlimit l.max_process_number rlimit_nproc l.max_process_number
    ++ do_serlimit l.max_output_size rlimit_fsize l.max_output_size
