-- ===== src/Judge/Judger/CommandLine/Tests.antt =====
-- A run of the judger's command line, and the theorem with a small shell.
use new_rojcpp.Prelude.{
  ℕ, ◌≡◌, refl, sym, ap, ◌∙◌, List, [], ◌∷◌, ◌++◌, Bool, true, false, ◌==◌, some, none, map,
  append_assoc, append-nil, arith, bytes_beq,
}
use new_rojcpp.Prelude.Text.{codes, AllAre, all_are, all_are-AllAre}
use new_rojcpp.Judge.Judger.CommandLine.{
  initial, arguments, find, flag_and_value, read_unsigned, store, parse_words, parse,
}
use new_rojcpp.Judge.Judger.CommandLine.Shell.{
  Word, bare, quoting, printed, meant, line, is_bare, is_inside, IsPlain, ArePlain, IsShell,
}
use new_rojcpp.Judge.Judger.CommandLine.RoundTrip.{config_of, parse-command_line}
use new_rojcpp.Judge.Judger.CommandLine.Settings.{IsReadable}
use new_rojcpp.Prelude.Cut.{cut}
use new_rojcpp.Prelude.Decimal.{digits_value}
use new_rojcpp.Judge.Judger.{Ended, ended, run}
use new_rojcpp.Judge.Judger.CommandLine.{main}
use new_rojcpp.Judge.Server.Worker.{World, run_judger}
use new_rojcpp.Judge.Server.Worker.Started.{run_judger-run}
use new_rojcpp.Judge.Judger.CommandLine.{Main, wrote}
use new_rojcpp.Prelude.{Option}
use new_rojcpp.Judge.Server.Args.{JudgeArgs, command_line}

-- Blanks between words, and double quotes: whether a quote is open, whether a word has begun, and
-- its characters.
abbrev split : Bool → Bool → List ℕ → List ℕ → List (List ℕ)
split quoted true word [] = word ∷ []
split quoted false word [] = []
split true begun word (c ∷ cs) = elim (c == 34) [
  | true ↦ split false true word cs
  | false ↦ split true true (word ++ c ∷ []) cs
]
split false begun word (c ∷ cs) = elim (c == 34) [
  | true ↦ split true true word cs
  | false ↦ elim (c == 32) [
    | false ↦ split false true (word ++ c ∷ []) cs
    | true ↦ elim begun [ true ↦ word ∷ split false false [] cs | false ↦ split false false [] cs ]
  ]
]

abbrev split_words : List ℕ → List (List ℕ)
split_words = split false false []

split-bare :
    (cs word rest : List ℕ)
    → AllAre is_bare cs
    → split false true word (cs ++ rest) ≡ split false true (word ++ cs) rest
split-bare [] word rest h = ap (λ w. split false true w rest) (sym (append-nil word))
split-bare (c ∷ cs) word rest h =
    let no_quote : (c == 34) ≡ false = ground (arith, h.0) in
    let no_blank : (c == 32) ≡ false = ground (arith, h.0) in
    rw (split, no_quote, no_blank)
      (split-bare cs (word ++ c ∷ []) rest h.1
        ∙ ap (λ w. split false true w rest) (append_assoc word (c ∷ []) cs))

split-inside :
    (cs word rest : List ℕ)
    → AllAre is_inside cs
    → split true true word (cs ++ rest) ≡ split true true (word ++ cs) rest
split-inside [] word rest h = ap (λ w. split true true w rest) (sym (append-nil word))
split-inside (c ∷ cs) word rest h =
    let no_quote : (c == 34) ≡ false = ground (arith, h.0) in
    rw (split, no_quote)
      (split-inside cs (word ++ c ∷ []) rest h.1
        ∙ ap (λ w. split true true w rest) (append_assoc word (c ∷ []) cs))

first_bare :
    (c : ℕ) (cs rest : List ℕ)
    → AllAre is_bare (c ∷ cs)
    → split_words (c ∷ (cs ++ rest)) ≡ split false true (c ∷ cs) rest
first_bare c cs rest h =
    let no_quote : (c == 34) ≡ false = ground (arith, h.0) in
    let no_blank : (c == 32) ≡ false = ground (arith, h.0) in
    rw (split_words, split, no_quote, no_blank) (split-bare cs (c ∷ []) rest h.1)

split-close :
    (q word rest : List ℕ)
    → AllAre is_inside q
    → split true true word ((q ++ 34 ∷ []) ++ 32 ∷ rest) ≡ (word ++ q) ∷ split_words rest
split-close q word rest h =
    ap (split true true word) (append_assoc q (34 ∷ []) (32 ∷ rest))
    ∙ split-inside q word (34 ∷ 32 ∷ rest) h

split-word :
    (w : Word) (rest : List ℕ)
    → IsPlain w
    → split_words (printed w ++ 32 ∷ rest) ≡ meant w ∷ split_words rest
split-word (bare []) rest h = absurd h
split-word (bare (c ∷ cs)) rest h = first_bare c cs (32 ∷ rest) h
split-word (quoting [] q) rest h = split-close q [] rest h.1
split-word (quoting (c ∷ cs) q) rest h =
    ap (λ t. split_words (c ∷ t)) (append_assoc cs (34 ∷ (q ++ 34 ∷ [])) (32 ∷ rest))
    ∙ first_bare c cs (34 ∷ ((q ++ 34 ∷ []) ++ 32 ∷ rest)) h.0
    ∙ split-close q (c ∷ cs) rest h.1

split-line : (ws : List Word) → ArePlain ws → split_words (line ws) ≡ map meant ws
split-line [] h = refl
split-line (w ∷ ws) h = split-word w (line ws) h.0 ∙ ap (◌∷◌ (meant w)) (split-line ws h.1)

split_words-IsShell : IsShell split_words
split_words-IsShell path ws h k = split-line (bare (47 ∷ path) ∷ ws) ((refl, h), k)

-- It left with an exit code.
abbrev done : Ended
done = record {
  signaled = false;
  term_sig = 0;
  exit_status = 3;
  utime_sec = 2;
  utime_usec = 500;
  maxrss = 5;
}

abbrev some_args : JudgeArgs
some_args = record {
  max_cpu_time = 1000;
  max_real_time = 10000;
  max_process_number = 10;
  max_memory = 4096;
  max_stack = 0;
  max_output_size = 512;
  seccomp_rule_name = codes "null";
  cwd = codes "/tmp/a b";
  input_path = codes "/tmp/1.in";
  output_path = codes "/tmp/1.out";
  error_path = codes "/tmp/error";
  log_path = codes "/tmp/log";
  exe_path = codes "main";
  args = codes "x=1" ∷ codes "y" ∷ [];
  env = codes "PATH=/usr/bin" ∷ [];
  gid = 0;
  uid = 0;
}

inside : (q : List ℕ) → all_are is_inside q ≡ true → AllAre is_inside q
inside q h = all_are-AllAre is_inside q h

some_args-IsReadable : IsReadable some_args
some_args-IsReadable = record {
  cpu = omega arith;
  real = omega arith;
  processes = omega arith;
  memory = omega arith;
  stack = omega arith;
  output_size = omega arith;
  rule_there = refl;
  rule_bare = all_are-AllAre is_bare (codes "null") refl;
  cwd = (refl, inside (codes "/tmp/a b") refl);
  input = (refl, inside (codes "/tmp/1.in") refl);
  output = (refl, inside (codes "/tmp/1.out") refl);
  error = (refl, inside (codes "/tmp/error") refl);
  log = (refl, inside (codes "/tmp/log") refl);
  exe = (refl, inside (codes "main") refl);
  args = ((refl, inside (codes "x=1") refl), ((refl, inside (codes "y") refl), tt));
  env = ((refl, inside (codes "PATH=/usr/bin") refl), tt);
  group = omega arith;
  user = omega arith;
}

parse-command_line_example :
    parse arguments
      (split_words (47 ∷ (codes "usr/bin/judger_core" ++ command_line some_args)))
      initial
    ≡ some (config_of some_args)
parse-command_line_example =
    parse-command_line split_words (codes "usr/bin/judger_core") some_args split_words-IsShell
      (all_are-AllAre is_bare (codes "usr/bin/judger_core") refl) some_args-IsReadable

-- What the judger writes, but for the help and the version.
abbrev output : Main → Option (List ℕ)
output (wrote text) = some text
output _ = none

-- The judge server's world in which the judger runs, and its program ends.
abbrev world : World
world = record {
  judger = λ line. output (main true (ended done) (split_words line));
  file = λ path. [];
  directory = λ path. none;
  uuid = [];
}

run_judger-run_example :
    run_judger world some_args ≡ some (run true (ended done) (config_of some_args).limits)
run_judger-run_example =
    run_judger-run world split_words true (ended done) some_args split_words-IsShell
      (λ line text e. ap output e) (omega arith) some_args-IsReadable

-- A flag without its value takes the word behind it only where that is one for it.
flag_first :
    (parse arguments (codes "judger" ∷ codes "-h" ∷ codes "-t" ∷ codes "5" ∷ []) initial)
    ≡ some (record initial { help = true; limits = record initial.limits { max_cpu_time = 5 } })
unfolding parse parse_words find flag_and_value store read_unsigned bytes_beq cut digits_value
flag_first = refl

value_missing : parse arguments (codes "judger" ∷ codes "-t" ∷ []) initial ≡ none
unfolding parse parse_words find flag_and_value store bytes_beq cut
value_missing = refl
