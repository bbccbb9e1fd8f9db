-- ===== src/Judge/Server/Args.antt =====
-- libs/judgercpp/judge_server/src/judgeArgs.hpp: what the judger is started with. A std::size_t is a
-- number below 2 ^ 64; `memory_base` is the constant of the configuration.
use new_rojcpp.Prelude.{
  ℕ, ◌+◌, ◌*◌, ◌%◌, ◌^◌, List, [], ◌∷◌, ◌++◌, Option, none, some, Bool, true, false, joined, ◌==◌,
  ◌||◌, if◌then◌else◌,
}
use new_rojcpp.Prelude.Cut.{cut}
use new_rojcpp.Prelude.Decimal.{decimal}
use new_rojcpp.Prelude.Text.{codes}
use new_rojcpp.Judge.Server.Language.{SuportLang, cpp, py3, unsuport}
use Prim.Native.String.{String}
use mathlib.Core.List.{reverse}

pub record JudgeArgs : Type 0 where
  pub max_cpu_time : ℕ
  pub max_real_time : ℕ
  pub max_process_number : ℕ
  pub max_memory : ℕ
  pub max_stack : ℕ
  pub max_output_size : ℕ
  pub seccomp_rule_name : List ℕ
  pub cwd : List ℕ
  pub input_path : List ℕ
  pub output_path : List ℕ
  pub error_path : List ℕ
  pub log_path : List ℕ
  pub exe_path : List ℕ
  pub args : List (List ℕ)
  pub env : List (List ℕ)
  pub gid : ℕ
  pub uid : ℕ

ends_with_slash : List ℕ → Bool
ends_with_slash [] = true
ends_with_slash (c ∷ []) = c == 47
ends_with_slash (c ∷ d ∷ ds) = ends_with_slash (d ∷ ds)

-- `std::filesystem::path::operator/`: an absolute path replaces the first one.
infixl 20 ◌//◌
unfoldable pub ◌//◌ : List ℕ → List ℕ → List ℕ
unfolding ends_with_slash
p // [] = if ends_with_slash p then p else p ++ 47 ∷ []
p // (c ∷ cs) =
    if c == 47 then c ∷ cs else if ends_with_slash p then p ++ c ∷ cs else p ++ 47 ∷ c ∷ cs

-- `path::stem` of a name without '/'
stem : List ℕ → List ℕ
stem name = elim (cut 46 (reverse name)) [
  | none ↦ name
  | some (_, []) ↦ name
  | some (_, c ∷ cs) ↦ reverse (c ∷ cs)
]

abbrev pub memory_base : ℕ
memory_base = 16 * 1024 * 1024

-- The constructor of `judge_args`: the memory that is given gets the base added, if it is limited.
-- Each of the source's calls passes "null", 0 and 0 for the rule and the two ids.
started :
    ℕ
    → ℕ
    → ℕ
    → ℕ
    → ℕ
    → ℕ
    → List ℕ
    → List ℕ
    → List ℕ
    → List ℕ
    → List ℕ
    → List ℕ
    → List (List ℕ)
    → JudgeArgs
started cpu real process memory stack output cwd input output_path error log exe args = record {
  max_cpu_time = cpu;
  max_real_time = real;
  max_process_number = process;
  max_memory = if memory == 0 then 0 else (memory + memory_base) % 2 ^ 64;
  max_stack = stack;
  max_output_size = output;
  seccomp_rule_name = codes "null";
  cwd = cwd;
  input_path = input;
  output_path = output_path;
  error_path = error;
  log_path = log;
  exe_path = exe;
  args = args;
  env = codes "PATH=/usr/bin" ∷ [];
  gid = 0;
  uid = 0;
}

unfoldable pub compile_cpp_args : List ℕ → List ℕ → JudgeArgs
unfolding started ◌//◌ stem
compile_cpp_args cwd code_name =
    started (10 * 1000) (90 * 1000) 0 0 0 (512 * 2 ^ 30) cwd (codes "/dev/null")
      (cwd // codes "compile_output") (cwd // codes "compile_error") (cwd // codes "compile_log")
      (codes "/usr/bin/g++")
      (codes "-x" ∷ codes "c++" ∷ codes "-o" ∷ stem code_name ∷ code_name ∷ [])

-- `512__MB`, as the source's operator computes it.
abbrev pub operator_mb : ℕ → ℕ
operator_mb a = a * 1024 * 1024 * 1024 % 2 ^ 64

judge_with : List ℕ → List (List ℕ) → List ℕ → List ℕ → List ℕ → ℕ → ℕ → JudgeArgs
unfolding started ◌//◌
judge_with exe args cwd in_file out_file time memory =
    started time (10 * time % 2 ^ 64) 10 (memory * 2 ^ 30 % 2 ^ 64) (operator_mb 512)
      (operator_mb 512) cwd in_file (cwd // out_file) (cwd // codes "judge_error")
      (cwd // codes "judge_log") exe args

unfoldable pub judge_py3_args : List ℕ → List ℕ → List ℕ → List ℕ → ℕ → ℕ → JudgeArgs
unfolding judge_with ◌//◌
judge_py3_args cwd code_name in_file out_file time memory =
    judge_with (codes "/usr/bin/python3") ((cwd // code_name) ∷ []) cwd in_file out_file time memory

unfoldable pub judge_cpp_args : List ℕ → List ℕ → List ℕ → List ℕ → ℕ → ℕ → JudgeArgs
unfolding judge_with stem
judge_cpp_args cwd code_name in_file out_file time memory =
    judge_with (stem code_name) [] cwd in_file out_file time memory

-- `getJudgeArgs`; the end of it is reached without a `return` for a language that is not supported.
unfoldable pub get_judge_args :
    SuportLang → List ℕ → List ℕ → List ℕ → List ℕ → ℕ → ℕ → Option JudgeArgs
unfolding judge_py3_args judge_cpp_args
get_judge_args py3 cwd code_name in_file out_file time memory =
    some (judge_py3_args cwd code_name in_file out_file time memory)
get_judge_args cpp cwd code_name in_file out_file time memory =
    some (judge_cpp_args cwd code_name in_file out_file time memory)
get_judge_args unsuport cwd code_name in_file out_file time memory = none

-- A path in a stream: quoted, with a backslash before each quote and backslash.
unfoldable pub quoted_chars : List ℕ → List ℕ
quoted_chars [] = []
quoted_chars (c ∷ cs) = elim (c == 34 || c == 92) [
  | true ↦ 92 ∷ c ∷ quoted_chars cs
  | false ↦ c ∷ quoted_chars cs
]

unfoldable pub path_option : String → List ℕ → List ℕ
unfolding quoted_chars
path_option name path = codes name ++ 34 ∷ (quoted_chars path ++ 34 ∷ 32 ∷ [])

unfoldable pub number_option : String → ℕ → List ℕ
number_option name n = codes name ++ (decimal n ++ 32 ∷ [])

unfoldable pub texts_option : String → List (List ℕ) → List ℕ
texts_option name [] = []
texts_option name (e ∷ es) = codes name ++ 34 ∷ (e ++ 34 ∷ 32 ∷ texts_option name es)

-- `operator std::string`: the command line
unfoldable pub command_line : JudgeArgs → List ℕ
unfolding path_option number_option texts_option
command_line a = joined (
    (32 ∷ [])
    ∷ number_option "--max_cpu_time=" a.max_cpu_time
    ∷ number_option "--max_real_time=" a.max_real_time
    ∷ number_option "--max_process_number=" a.max_process_number
    ∷ number_option "--max_memory=" a.max_memory
    ∷ number_option "--max_stack=" a.max_stack
    ∷ number_option "--max_output_size=" a.max_output_size
    ∷ (codes "--seccomp_rule_name=" ++ (a.seccomp_rule_name ++ 32 ∷ []))
    ∷ path_option "--cwd=" a.cwd
    ∷ path_option "--input_path=" a.input_path
    ∷ path_option "--output_path=" a.output_path
    ∷ path_option "--error_path=" a.error_path
    ∷ path_option "--log_path=" a.log_path
    ∷ path_option "--exe_path=" a.exe_path
    ∷ texts_option "--args=" a.args
    ∷ texts_option "--env=" a.env
    ∷ number_option "--gid=" a.gid
    ∷ number_option "--uid=" a.uid
    ∷ [])
