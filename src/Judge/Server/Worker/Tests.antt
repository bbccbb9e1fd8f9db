-- ===== src/Judge/Server/Worker/Tests.antt =====
-- Runs and instances of the theorems on the judge server.
use new_rojcpp.Prelude.{ℕ, ◌≡◌, refl, List, [], ◌∷◌, ◌++◌, some, true, false, bytes_beq, arith}
use new_rojcpp.Prelude.Decimal.{digits_value}
use new_rojcpp.Prelude.Text.{codes}
use new_rojcpp.Http.Strings.{iequal}
use new_rojcpp.Judge.ResultMessage.{JudgeResult}
use new_rojcpp.Judge.Server.Check.{noipstyle_check, compare_lines, read_line, del_line_back_space}
use new_rojcpp.Judge.Server.Language.{cpp, string_to_lang, is_sport_language}
use new_rojcpp.Judge.Server.Args.{JudgeArgs, ◌//◌, compile_cpp_args}
use new_rojcpp.Judge.Server.Problem.{Problem, load_problem, with_names, sorted}
use new_rojcpp.Judge.Judger.{print_result}
use new_rojcpp.Judge.Server.Output.{scan_result}
use new_rojcpp.Judge.Server.Output.RoundTrip.{scan_result-print_result}
use new_rojcpp.Judge.Server.Worker.{World, QueueNode, run_judger, judge, problem_of, work_stage1}
use new_rojcpp.Judge.Server.Worker.Verdict.{measured, judge-measured}
use new_rojcpp.Judge.Server.Worker.Report.{IsReport, work_stage1-IsReport}

-- Python is judged as C++.
python : string_to_lang (codes "Python3") ≡ cpp
unfolding string_to_lang iequal
python = refl

-- Blanks at the end of a line do not count, and neither does what the program prints behind the last
-- line.
accepts : noipstyle_check 9 (codes "1 \n2\n3\n") (codes "1\n2 \n") ≡ some true
unfolding noipstyle_check compare_lines read_line del_line_back_space bytes_beq
accepts = refl

refuses : noipstyle_check 9 (codes "1\n") (codes "1\n2\n") ≡ some false
unfolding noipstyle_check compare_lines read_line del_line_back_space bytes_beq
refuses = refl

abbrev fine : JudgeResult
fine = record {
  cpu_time = 1;
  real_time = 2;
  memory = 3;
  signal = 0;
  exit_code = 0;
  error = 0;
  result = 0;
}

fine_read : scan_result (print_result fine) ≡ some fine
fine_read = scan_result-print_result fine (omega arith)

-- A problem with two points.
abbrev world : World
world = record {
  judger = λ command. some (print_result fine);
  file = λ path. [];
  directory = λ path. some (
      codes "add2.in" ∷ codes "add1.out" ∷ codes "add1.in" ∷ codes "add2.ans" ∷ codes "x.txt" ∷ []);
  uuid = codes "A";
}

abbrev node : QueueNode
node = record {
  fd = 7;
  key = codes "12";
  code = codes "int main(){}";
  language = codes "cpp";
  pid = codes "9";
  problem_path = [];
  time_limit = 1000;
  memory_limit = 128;
}

abbrev some_args : JudgeArgs
unfolding compile_cpp_args
some_args = compile_cpp_args (codes "/tmp") (codes "main.code")

judge-measured_example :
    judge world some_args (codes "0.out") ≡ some (measured world some_args fine)
unfolding run_judger
judge-measured_example = judge-measured world some_args (codes "0.out") fine fine_read refl

abbrev data_of : List ℕ → List ℕ
data_of name = codes "/home/rainboy/mycode/RainboyOJ/problems/problems/9/data/" ++ name

abbrev two_points : Problem
two_points = record {
  input_data = (1, data_of (codes "add1.in")) ∷ (2, data_of (codes "add2.in")) ∷ [];
  output_data = (1, data_of (codes "add1.out")) ∷ (2, data_of (codes "add2.ans")) ∷ [];
}

work_stage1-IsReport_example : IsReport world node two_points.input_data (work_stage1 world node)
unfolding problem_of load_problem with_names sorted ◌//◌ digits_value bytes_beq run_judger
    is_sport_language string_to_lang iequal
work_stage1-IsReport_example =
    work_stage1-IsReport world (λ command. (print_result fine, fine, refl, fine_read)) node
      two_points fine refl refl fine_read refl
