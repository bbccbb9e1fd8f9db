-- ===== src/Judge/Server/Worker.antt =====
-- libs/judgercpp/judge_server/src/judgeWorkPool.hpp: the queue of requests and what a working thread
-- does with one. The process of the judger, the file system and the clock's unique name are
-- arguments; what is written to a connection is the list of messages.
pub mod Started
pub mod Verdict
pub mod Report
mod Tests
use new_rojcpp.Prelude.{
  ℕ, zero, suc, ◌+◌, ◌-◌, ◌%◌, ◌^◌, List, [], ◌∷◌, ◌++◌, Option, none, some, Bool, true, false, not,
  ◌||◌, ◌&&◌, ltb, leb, ◌==◌, length, map, if◌then◌else◌,
}
use new_rojcpp.Prelude.Decimal.{decimal}
use new_rojcpp.Prelude.Text.{codes}
use new_rojcpp.Judge.SendMessage.{MessageSend}
use new_rojcpp.Judge.ResultMessage.{JudgeResult, MessageResult}
use new_rojcpp.Judge.Server.Check.{noipstyle_check}
use new_rojcpp.Judge.Server.Language.{SuportLang, string_to_lang, is_sport_language, get_base_name}
use new_rojcpp.Judge.Server.Args.{
  JudgeArgs, ◌//◌, memory_base, compile_cpp_args, get_judge_args, command_line,
}
use new_rojcpp.Judge.Server.Output.{scan_result}
use new_rojcpp.Judge.Server.Problem.{DataFile, Problem, load_problem}

-- What the judger writes for a command, `none` if it cannot be started; what a file holds when it is
-- read; the names in the data directory of a problem's path, if both are there; and the unique name.
pub record World : Type 0 where
  pub judger : List ℕ → Option (List ℕ)
  pub file : List ℕ → List ℕ
  pub directory : List ℕ → Option (List (List ℕ))
  pub uuid : List ℕ

-- `judge_Queue_node`; its stage is always PREPARE, as nothing sets another one.
pub record QueueNode : Type 0 where
  pub fd : ℕ
  pub key : List ℕ
  pub code : List ℕ
  pub language : List ℕ
  pub pid : List ℕ
  pub problem_path : List ℕ
  pub time_limit : ℕ
  pub memory_limit : ℕ

unfoldable pub enque : MessageSend → ℕ → List QueueNode → List QueueNode
enque m fd q =
    q
    ++ (record {
      fd = fd;
      key = m.key;
      code = m.code;
      language = m.language;
      pid = m.pid;
      problem_path = [];
      time_limit = m.time_limit;
      memory_limit = m.memory_limit;
    })
      ∷ []

abbrev pub base_problem_path : List ℕ
base_problem_path = codes "/home/rainboy/mycode/RainboyOJ/problems/problems"

abbrev pub base_work_path : List ℕ
base_work_path = codes "/home/rainboy/tmp"

abbrev pub judger_bin : List ℕ
judger_bin = codes "/usr/bin/judger_core"

-- An `int` as a `std::size_t`
abbrev pub to_size : ℕ → ℕ
to_size n = if ltb n (2 ^ 31) then n else n + (2 ^ 64 - 2 ^ 32)

-- A message without results.
abbrev pub message : ℕ → List ℕ → List ℕ → MessageResult
message code key msg = record { code = code; key = key; msg = msg; results = [] }

-- INVALID_CONFIG is -1, and COMPILE_FAIL -12.
abbrev pub invalid_config : ℕ
invalid_config = 2 ^ 32 - 1

abbrev pub compile_fail : ℕ
compile_fail = 2 ^ 32 - 12

module _ (w : World) where
  -- `__judger`
  unfoldable pub run_judger : JudgeArgs → Option JudgeResult
  unfolding scan_result
  run_judger args = elim (w.judger (judger_bin ++ command_line args)) [
    | none ↦ none
    | some text ↦ scan_result text
  ]

  -- MEMORY_LIMIT_EXCEEDED is 3, and WRONG_ANSWER -1.
  unfoldable pub compared : JudgeArgs → List ℕ → JudgeResult → Option JudgeResult
  compared args out_file res =
      let user_output = w.file args.output_path in
      let std_output = w.file out_file in
      elim (noipstyle_check (length std_output + 2) user_output std_output) [
        | none ↦ none
        | some true ↦ some res
        | some false ↦ some (record res { result = 2 ^ 32 - 1 })
      ]

  abbrev pub over_memory : JudgeArgs → JudgeResult → Bool
  over_memory args res =
      not (args.max_memory == 0)
      && leb ((args.max_memory + (2 ^ 64 - memory_base)) % 2 ^ 64) res.memory

  -- `Judge`
  unfoldable pub judge : JudgeArgs → List ℕ → Option JudgeResult
  unfolding run_judger compared
  judge args out_file = elim (run_judger args) [
    | none ↦ none
    | some res ↦ elim (not (res.error == 0) || not (res.result == 0)) [
      | true ↦ some res
      | false ↦ elim (over_memory args res) [
        | true ↦ some (record res { result = 3 })
        | false ↦ compared args out_file res
      ]
    ]
  ]

  -- The name of the file that a point's output goes to.
  abbrev pub user_out_file : ℕ → List ℕ
  user_out_file i = decimal i ++ codes ".out"

  -- The arguments that a test point is judged with.
  unfoldable pub point_args : QueueNode → ℕ → DataFile → Option JudgeArgs
  point_args jn i (_, in_file) =
      get_judge_args (string_to_lang jn.language) (base_work_path // w.uuid) (codes "main.code")
        in_file (user_out_file i) (to_size jn.time_limit) (to_size jn.memory_limit)

  unfoldable pub judge_point : QueueNode → ℕ → DataFile → Option JudgeResult
  unfolding point_args judge
  judge_point jn i in_file = elim (point_args jn i in_file) [
    | none ↦ none
    | some args ↦ judge args (user_out_file i)
  ]

  abbrev pub point_message : QueueNode → ℕ → ℕ → DataFile → DataFile → JudgeResult → MessageResult
  point_message jn i size (_, in_file) (_, out_file) res = record {
    code = 0;
    key = jn.key;
    msg =
        decimal i
        ++ 44 ∷ (decimal size ++ 44 ∷ (get_base_name in_file ++ 44 ∷ get_base_name out_file));
    results = res ∷ [];
  }

  -- The loop over the points from `i` on, and the message that ends it. An exception ends it too.
  unfoldable pub judge_points :
      QueueNode → ℕ → ℕ → List DataFile → List DataFile → List JudgeResult → List MessageResult
  unfolding judge_point
  judge_points jn i size (f ∷ fs) (g ∷ gs) all = elim (judge_point jn i f) [
    | none ↦ []
    | some res ↦
        point_message jn i size f g res ∷ judge_points jn (suc i) size fs gs (all ++ res ∷ [])
  ]
  judge_points jn i size _ _ all =
      (record { code = 0; key = jn.key; msg = codes "ALL"; results = all }) ∷ []

  abbrev pub failed_to_compile : JudgeResult → Bool
  failed_to_compile res = not (res.result == 0) || not (res.error == 0) || not (res.exit_code == 0)

  -- The text of a failed compilation.
  abbrev pub compile_text : List ℕ → List ℕ → List ℕ
  compile_text [] log = log
  compile_text (c ∷ cs) log = c ∷ cs

  unfoldable pub compiled : QueueNode → Problem → JudgeArgs → JudgeResult → List MessageResult
  unfolding judge_points
  compiled jn p args res = elim (failed_to_compile res) [
    | true ↦
        message compile_fail jn.key (compile_text (w.file args.error_path) (w.file args.log_path))
        ∷ []
    | false ↦
        message 0 jn.key (codes "allSize:" ++ decimal (length p.input_data))
        ∷ judge_points jn 0 (length p.input_data) p.input_data p.output_data []
  ]

  unfoldable pub problem_of : QueueNode → Option Problem
  problem_of jn =
      let path =
        if length jn.problem_path == 0 then base_problem_path // jn.pid else jn.problem_path in
      load_problem path (w.directory path)

  -- `work_stage1`: the messages that are written.
  unfoldable pub work_stage1 : QueueNode → List MessageResult
  unfolding problem_of compiled run_judger
  work_stage1 jn = elim (is_sport_language jn.language) [
    | false ↦ message invalid_config jn.key (codes "unsupport language : " ++ jn.language) ∷ []
    | true ↦ elim (problem_of jn) [
      | none ↦ []
      | some p ↦
          let args = compile_cpp_args (base_work_path // w.uuid) (codes "main.code") in
          elim (run_judger args) [ none ↦ [] | some res ↦ compiled jn p args res ]
    ]
  ]

  -- One round of `judgeWork`: the front of the queue, and what is written to its connection.
  unfoldable pub judge_work : List QueueNode → List (ℕ × MessageResult) × List QueueNode
  unfolding work_stage1
  judge_work [] = ([], [])
  judge_work (jn ∷ q) = (map (λ m. (jn.fd, m)) (work_stage1 jn), q)
