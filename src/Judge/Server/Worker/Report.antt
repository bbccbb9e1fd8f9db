-- ===== src/Judge/Server/Worker/Report.antt =====
-- What the judge server sends for a request, and what the back end reads in it.
use new_rojcpp.Prelude.{
  ℕ, suc, ◌+◌, ◌-◌, ◌^◌, ◌≡◌, refl, sym, ap, ◌∙◌, List, [], ◌∷◌, ◌++◌, some, Bool, true, false, not,
  ◌||◌, inl, inr, arith, length, Bool-cases, ◌==◌, append_assoc, append-nil,
}
use new_rojcpp.Prelude.Text.{codes}
use new_rojcpp.Prelude.Decimal.{decimal}
use new_rojcpp.Judge.ResultMessage.{JudgeResult, MessageResult}
use new_rojcpp.Judge.Handler.{State, read_points}
use new_rojcpp.Judge.Handler.Points.{read_points-decimal}
use new_rojcpp.Judge.Server.Check.{noipstyle_check}
use new_rojcpp.Judge.Server.Check.Rounds.{noipstyle_check_returns}
use new_rojcpp.Judge.Server.Language.{
  SuportLang, cpp, py3, unsuport, string_to_lang, is_sport_language, get_base_name,
}
use new_rojcpp.Judge.Server.Args.{
  JudgeArgs, ◌//◌, get_judge_args, judge_cpp_args, judge_py3_args, compile_cpp_args, command_line,
}
use new_rojcpp.Judge.Server.Output.{scan_result}
use new_rojcpp.Judge.Server.Problem.{DataFile, Problem}
use new_rojcpp.Judge.Server.Problem.Sizes.{load_problem-sizes}
use new_rojcpp.Judge.Server.Worker.{
  World, QueueNode, run_judger, compared, over_memory, judge, judge_point, judge_points, point_args,
  point_message, user_out_file, work_stage1, problem_of, compiled, failed_to_compile,
  base_work_path, judger_bin, message, to_size,
}

-- One message for each point from `i` on, with the key of the request: the handler of the back end
-- reads the point's number and the number of points in it, and it holds the result.
abbrev pub ArePoints : List ℕ → ℕ → ℕ → List MessageResult → List JudgeResult → Type 0
ArePoints key size i [] [] = Unit
ArePoints key size i (m ∷ ms) (r ∷ rs) =
    (m.key ≡ key)
    × (m.code ≡ 0)
    × (m.results ≡ r ∷ [])
    × (read_points State.in_now 0 0 m.msg ≡ (i, size))
    × ArePoints key size (suc i) ms rs
ArePoints key size i _ _ = ⊥

-- The result of judging a test point: `Judge` with the arguments of the request's language, the
-- point's input file, the limits of the request, and the name of the output that the point's number
-- gives.
pub record IsJudged (w : World) (jn : QueueNode) (i : ℕ) (f : DataFile) (r : JudgeResult)
    : Type 0 where
  pub args : JudgeArgs
  pub made :
      get_judge_args
        (string_to_lang jn.language)
        (base_work_path // w.uuid)
        (codes "main.code")
        f.1
        (decimal i ++ codes ".out")
        (to_size jn.time_limit)
        (to_size jn.memory_limit)
      ≡ some args
  pub judged : judge w args (decimal i ++ codes ".out") ≡ some r

-- The results of the points from `i` on, each of its own input file.
abbrev pub AreJudged : World → QueueNode → ℕ → List DataFile → List JudgeResult → Type 0
AreJudged w jn i [] [] = Unit
AreJudged w jn i (f ∷ fs) (r ∷ rs) = IsJudged w jn i f r × AreJudged w jn (suc i) fs rs
AreJudged w jn i _ _ = ⊥

-- The message that ends the answer to a request.
abbrev pub last_message : List ℕ → List JudgeResult → MessageResult
last_message key results = record { code = 0; key = key; msg = codes "ALL"; results = results }

-- The number of points, a message for each of them and one with all the results, of which each is
-- that of judging its point.
pub record IsReport (w : World) (jn : QueueNode) (inputs : List DataFile)
    (sent : List MessageResult) : Type 0 where
  pub points : List MessageResult
  pub results : List JudgeResult
  pub judged : AreJudged w jn 0 inputs results
  pub sends :
      sent
      ≡ message 0 jn.key (codes "allSize:" ++ decimal (length inputs))
        ∷ (points ++ last_message jn.key results ∷ [])
  pub numbered : ArePoints jn.key (length inputs) 0 points results

-- The judger can be started, and writes a result that can be read.
abbrev pub Starts : World → Type 0
Starts w =
    (command : List ℕ)
    → (text : List ℕ) × (r : JudgeResult) × (w.judger command ≡ some text)
      × (scan_result text ≡ some r)

supported_args :
    (lang : SuportLang)
    → (elim lang [ unsuport ↦ false | _ ↦ true ]) ≡ true
    → (work_path in_file out_file : List ℕ) (time memory : ℕ)
    → (args : JudgeArgs) × (get_judge_args lang work_path
          (codes "main.code")
          in_file
          out_file
          time
          memory
        ≡ some args)
unfolding get_judge_args
supported_args cpp h p f g t m = (judge_cpp_args p (codes "main.code") f g t m, refl)
supported_args py3 h p f g t m = (judge_py3_args p (codes "main.code") f g t m, refl)
supported_args unsuport h p f g t m = absurd (ground (arith, h))

problem_of-sizes :
    (w : World) (jn : QueueNode) (p : Problem)
    → problem_of w jn ≡ some p
    → length p.input_data ≡ length p.output_data
unfolding problem_of
problem_of-sizes w jn p h = load_problem-sizes _ _ p h

-- The messages of the points from `i` on, and the last one.
record Ends (w : World) (jn : QueueNode) (i size : ℕ) (fs : List DataFile) (all : List JudgeResult)
    (sent : List MessageResult) : Type 0 where
  points : List MessageResult
  results : List JudgeResult
  judged : AreJudged w jn i fs results
  sends : sent ≡ points ++ last_message jn.key (all ++ results) ∷ []
  numbered : ArePoints jn.key size i points results

module _ (w : World) (starts : Starts w) where
  compared_returns :
      (args : JudgeArgs) (out_file : List ℕ) (res : JudgeResult)
      → (r : JudgeResult) × (compared w args out_file res ≡ some r)
  unfolding compared
  compared_returns args out_file res =
      let (b, e) =
        noipstyle_check_returns (length (w.file out_file) + 2) (w.file args.output_path)
          (w.file out_file) (omega arith) in
      verdict b e
    where
      verdict :
          (b : Bool)
          → noipstyle_check
              (length (w.file out_file) + 2)
              (w.file args.output_path)
              (w.file out_file)
            ≡ some b
          → (r : JudgeResult) × (compared w args out_file res ≡ some r)
      verdict true e = (res, rw (compared, e))
      verdict false e = (record res { result = 2 ^ 32 - 1 }, rw (compared, e))

  judge_returns :
      (args : JudgeArgs) (out_file : List ℕ) → (r : JudgeResult) × (judge w args out_file ≡ some r)
  unfolding judge run_judger
  judge_returns args out_file =
      let (text, res, a, b) = starts (judger_bin ++ command_line args) in
      let r : run_judger w args ≡ some res = rw (run_judger, a, b) in
      elim (Bool-cases (not (res.error == 0) || not (res.result == 0))) [
        | inl e ↦ (res, rw (judge, r, e))
        | inr e ↦ elim (Bool-cases (over_memory w args res)) [
          | inl m ↦ (record res { result = 3 }, rw (judge, r, e, m))
          | inr m ↦ let (v, k) = compared_returns args out_file res in (v, rw (judge, r, e, m, k))
        ]
      ]

  judge_point_returns :
      (jn : QueueNode) (i : ℕ) (f : DataFile)
      → is_sport_language jn.language ≡ true
      → (r : JudgeResult) × (judge_point w jn i f ≡ some r) × IsJudged w jn i f r
  unfolding judge_point point_args is_sport_language
  judge_point_returns jn i (n, in_file) h =
      let (args, a) =
        supported_args (string_to_lang jn.language) h (base_work_path // w.uuid) in_file
          (user_out_file w i) (to_size jn.time_limit) (to_size jn.memory_limit) in
      let (r, k) = judge_returns args (user_out_file w i) in
      (r, rw (judge_point, point_args, a, k), record { args = args; made = a; judged = k })

  judge_points-IsReport :
      (jn : QueueNode) (i size : ℕ) (fs gs : List DataFile) (all : List JudgeResult)
      → is_sport_language jn.language ≡ true
      → length fs ≡ length gs
      → Ends w jn i size fs all (judge_points w jn i size fs gs all)
  unfolding judge_points
  judge_points-IsReport jn i size [] [] all h n = record {
    points = [];
    results = [];
    judged = tt;
    sends = ap (λ l. last_message jn.key l ∷ []) (sym (append-nil all));
    numbered = tt;
  }
  judge_points-IsReport jn i size [] (g ∷ gs) all h n = absurd (omega (arith, n))
  judge_points-IsReport jn i size (f ∷ fs) [] all h n = absurd (omega (arith, n))
  judge_points-IsReport jn i size (f ∷ fs) (g ∷ gs) all h n =
      let (r, k, j) = judge_point_returns jn i f h in
      let e = judge_points-IsReport jn (suc i) size fs gs (all ++ r ∷ []) h (omega (arith, n)) in
      record {
        points = point_message w jn i size f g r ∷ e.points;
        results = r ∷ e.results;
        judged = (j, e.judged);
        sends =
            rw (judge_points, k)
              (ap (◌∷◌ (point_message w jn i size f g r)) (
                e.sends
                ∙ ap (λ l. e.points ++ last_message jn.key l ∷ [])
                    (append_assoc all (r ∷ []) e.results)));
        numbered = (
          refl,
          refl,
          refl,
          read_points-decimal i size 44 (44 ∷ (get_base_name f.1 ++ 44 ∷ get_base_name g.1)) refl
              refl,
          e.numbered,
        );
      }

  -- A request in a supported language, for a problem that can be loaded, whose program
  -- compiles, is answered in full if the judger can be started and writes
  -- readable results: first the number
  -- of points, then a message for each point, in order, in which the back end reads the number of the
  -- point and how many there are and which holds the result of the point, and at last one with the
  -- results of all points; each with the key of the request. The result of a point is that of judging
  -- it with its own input file, its own number in the name of the output, and the language and limits
  -- of the request.
  pub work_stage1-IsReport :
      (jn : QueueNode) (p : Problem) (res : JudgeResult)
      → is_sport_language jn.language ≡ true
      → problem_of w jn ≡ some p
      → run_judger w (compile_cpp_args (base_work_path // w.uuid) (codes "main.code")) ≡ some res
      → failed_to_compile w res ≡ false
      → IsReport w jn p.input_data (work_stage1 w jn)
  unfolding work_stage1 compiled
  work_stage1-IsReport jn p res lang q r c =
      let n = problem_of-sizes w jn p q in
      let e =
        judge_points-IsReport jn 0 (length p.input_data) p.input_data p.output_data [] lang n in
      record {
        points = e.points;
        results = e.results;
        judged = e.judged;
        sends =
            rw (work_stage1, lang, q, r, compiled, c)
              (ap (◌∷◌ (message 0 jn.key (codes "allSize:" ++ decimal (length p.input_data))))
                e.sends);
        numbered = e.numbered;
      }
