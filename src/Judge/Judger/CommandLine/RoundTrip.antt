-- ===== src/Judge/Judger/CommandLine/RoundTrip.antt =====
-- The judger reads the options that the judge server writes
-- (libs/judgercpp/judge_server/src/judgeArgs.hpp).
use new_rojcpp.Prelude.{
  ℕ, ◌≡◌, refl, sym, ap, ◌∙◌, List, [], ◌∷◌, ◌++◌, some, Bool, false, map, joined, append_assoc,
  append-nil,
}
use new_rojcpp.Prelude.Text.{AllAre}
use new_rojcpp.Judge.Judger.CommandLine.{Config, initial, arguments, parse, parse_words}
use new_rojcpp.Judge.Judger.CommandLine.Shell.{line, is_bare, IsShell}
use new_rojcpp.Judge.Judger.CommandLine.Kinds.{number_setting}
use new_rojcpp.Judge.Judger.CommandLine.Options.{
  Setting, word_of, words_of-meant, changed, parse_words-changed, AreKnown-ArePlain,
}
use new_rojcpp.Judge.Server.Args.{JudgeArgs, command_line}
use new_rojcpp.Judge.Judger.{Child, run, print_result}
use new_rojcpp.Judge.Judger.CommandLine.{main, wrote}
use new_rojcpp.Judge.Judger.CommandLine.Settings.{
  settings_of, args_setting, env_setting, IsReadable,
}
use new_rojcpp.Judge.Judger.CommandLine.Parts.{settings-Parts, joined-line, joined-AreKnown}

-- The variables of the judger that stand for some arguments.
abbrev pub config_of : JudgeArgs → Config
config_of a = record {
  help = false;
  show_version = false;
  limits = record {
    max_cpu_time = a.max_cpu_time;
    max_real_time = a.max_real_time;
    max_process_number = a.max_process_number;
    memory_limit_check_only = false;
    max_output_size = a.max_output_size;
    max_memory = a.max_memory;
    max_stack = a.max_stack;
  };
  cwd = a.cwd;
  exe_path = a.exe_path;
  input_path = a.input_path;
  output_path = a.output_path;
  error_path = a.error_path;
  args = a.args;
  env = a.env;
  log_path = a.log_path;
  seccomp_rule_name = a.seccomp_rule_name;
  uid = a.uid;
  gid = a.gid;
}

changed-append :
    (os ps : List Setting) (s : Config) → changed (os ++ ps) s ≡ changed ps (changed os s)
changed-append [] ps s = refl
changed-append (o ∷ os) ps s = changed-append os ps (o.change s)

args_changed :
    (qs : List (List ℕ)) (s : Config)
    → changed (map args_setting qs) s ≡ record s { args = s.args ++ qs }
args_changed [] s = ap (λ qs. record s { args = qs }) (sym (append-nil s.args))
args_changed (q ∷ qs) s =
    args_changed qs (record s { args = s.args ++ q ∷ [] })
    ∙ ap (λ qs. record s { args = qs }) (append_assoc s.args (q ∷ []) qs)

env_changed :
    (qs : List (List ℕ)) (s : Config)
    → changed (map env_setting qs) s ≡ record s { env = s.env ++ qs }
env_changed [] s = ap (λ qs. record s { env = qs }) (sym (append-nil s.env))
env_changed (q ∷ qs) s =
    env_changed qs (record s { env = s.env ++ q ∷ [] })
    ∙ ap (λ qs. record s { env = qs }) (append_assoc s.env (q ∷ []) qs)

settings-changed : (a : JudgeArgs) → changed (joined (settings_of a)) initial ≡ config_of a
settings-changed a =
    changed-append (map args_setting a.args) (map env_setting a.env ++ ids) _
    ∙ ap (changed (map env_setting a.env ++ ids)) (args_changed a.args _)
    ∙ changed-append (map env_setting a.env) ids _
    ∙ ap (changed ids) (env_changed a.env _)
  where
    ids : List Setting
    ids =
        number_setting "--gid" (λ v s. record s { gid = v }) a.gid
        ∷ number_setting "--uid" (λ v s. record s { uid = v }) a.uid
        ∷ []

command_line-line :
    (a : JudgeArgs)
    → IsReadable a
    → command_line a ≡ 32 ∷ line (map word_of (joined (settings_of a)))
unfolding command_line
command_line-line a h = ap (◌∷◌ 32) (joined-line (settings-Parts a h))

-- The judger that the judge server starts has the limits, paths and texts of its arguments, if they
-- are readable (numbers in range, texts not empty and without characters that mean something
-- between the quotes), whatever the shell in between, and whatever the path of the judger.
pub parse-command_line :
    (words : List ℕ → List (List ℕ)) (path : List ℕ) (a : JudgeArgs)
    → IsShell words
    → AllAre is_bare path
    → IsReadable a
    → parse arguments (words (47 ∷ (path ++ command_line a))) initial ≡ some (config_of a)
unfolding parse
parse-command_line words path a shell plain h =
    let os = joined (settings_of a) in
    let known = joined-AreKnown (settings-Parts a h) in
    ap (λ t. parse arguments (words (47 ∷ (path ++ t))) initial) (command_line-line a h)
    ∙ ap (λ ws. parse arguments ws initial)
        (shell path (map word_of os) plain (AreKnown-ArePlain os known))
    ∙ ap (λ ws. parse_words arguments false ws initial) (words_of-meant os)
    ∙ parse_words-changed os initial known
    ∙ ap some (settings-changed a)

-- What it writes is then the verdict that the limits among the arguments give.
pub main-command_line :
    (words : List ℕ → List (List ℕ)) (path : List ℕ) (a : JudgeArgs) (root : Bool) (child : Child)
    → IsShell words
    → AllAre is_bare path
    → IsReadable a
    → main root child (words (47 ∷ (path ++ command_line a)))
      ≡ wrote (print_result (run root child (config_of a).limits))
unfolding main
main-command_line words path a root child shell plain h =
    rw (main, parse-command_line words path a shell plain h) refl
