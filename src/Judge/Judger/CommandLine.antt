-- ===== src/Judge/Judger/CommandLine.antt =====
-- libs/judgercpp/commandline.hpp: the options of a program, and libs/judgercpp/judge_core.cpp: the
-- judger from its command line to its verdict. A pointer to a variable is the function that sets it.
pub mod Shell
pub mod Options
pub mod Kinds
pub mod Settings
pub mod Parts
pub mod RoundTrip
mod Tests
use new_rojcpp.Prelude.{
  ℕ, ◌+◌, ◌-◌, ◌%◌, ◌^◌, List, [], ◌∷◌, ◌++◌, Option, none, some, Bool, true, false, not, ◌&&◌,
  ◌||◌, ltb, leb, ◌==◌, if◌then◌else◌, bytes_beq,
}
use new_rojcpp.Prelude.Cut.{cut}
use new_rojcpp.Prelude.Decimal.{digits_value}
use new_rojcpp.Prelude.Text.{codes}
use new_rojcpp.Judge.Judger.{Child, Limits, run, print_result}

-- The alternatives that an argument of the judger uses: the variants of `int32_t`, `double` and
-- `float` are left out. The function of `texts` adds a text at the end.
pub data Value (S : Type 0) : Type 0 where
  uint32 uint64 : (ℕ → S → S) → Value S
  flag : (Bool → S → S) → Value S
  text texts : (List ℕ → S → S) → Value S

pub record Argument (S : Type 0) : Type 0 where
  pub flags : List (List ℕ)
  pub value : Value S

abbrev pub is_space : ℕ → Bool
is_space c = leb 9 c && leb c 13 || c == b' '

-- What `>>` makes of a number for an unsigned type of `w` bits.
abbrev pub up_to : ℕ → ℕ → ℕ
up_to w n = if ltb n (2 ^ w) then n else 2 ^ w - 1

abbrev pub negated : ℕ → ℕ → ℕ
negated w n = if ltb n (2 ^ w) then (2 ^ w - n) % 2 ^ w else 2 ^ w - 1

-- `sstr >> *arg`: 0 where there is no number; `none` where there are only blanks, which leaves the
-- variable as it is.
unfoldable pub read_unsigned : ℕ → List ℕ → Option ℕ
read_unsigned w [] = none
read_unsigned w (c ∷ cs) = elim (is_space c) [
  | true ↦ read_unsigned w cs
  | false ↦
      if c == b'-'
      then some (negated w (digits_value 0 cs))
      else if c == b'+'
      then some (up_to w (digits_value 0 cs))
      else some (up_to w (digits_value 0 (c ∷ cs)))
]

abbrev pub is_empty : List ℕ → Bool
is_empty [] = true
is_empty (_ ∷ _) = false

abbrev pub has_flag : List ℕ → List (List ℕ) → Bool
has_flag wanted [] = false
has_flag wanted (f ∷ fs) = bytes_beq f wanted || has_flag wanted fs

-- The flag, the value, and whether the value is the next word.
unfoldable pub flag_and_value : List ℕ → List (List ℕ) → List ℕ × List ℕ × Bool
flag_and_value word words = elim (cut b'=' word) [
  | some (name, value) ↦ (name, value, false)
  | none ↦ elim words [ [] ↦ (word, [], false) | (value ∷ _) ↦ (word, value, true) ]
]

module _ {S : Type 0} where
  -- The first argument with the flag.
  unfoldable pub find : List ℕ → List (Argument S) → Option (Value S)
  find wanted [] = none
  find wanted (a ∷ args) = if has_flag wanted a.flags then some a.value else find wanted args

  -- Whether the value was the next word still, and the variables; `none` is a missing value.
  unfoldable pub store : Value S → List ℕ → Bool → S → Option (Bool × S)
  unfolding read_unsigned
  store (flag set) value separate s =
      let other =
        not (is_empty value)
        && (not (bytes_beq value (codes "true")) && not (bytes_beq value (codes "false"))) in
      some (separate && not other, set (not (bytes_beq value (codes "false"))) s)
  store (text set) value separate s = if is_empty value then none else some (separate, set value s)
  store (texts add) value separate s = if is_empty value then none else some (separate, add value s)
  store (uint32 set) value separate s =
      if is_empty value then none else elim (read_unsigned 32 value) [
        | none ↦ some (separate, s)
        | some n ↦ some (separate, set n s)
      ]
  store (uint64 set) value separate s =
      if is_empty value then none else elim (read_unsigned 64 value) [
        | none ↦ some (separate, s)
        | some n ↦ some (separate, set n s)
      ]

  -- The loop; the second argument says that the next word is a value that was taken. `none` is the
  -- exception for a missing value.
  unfoldable pub parse_words : List (Argument S) → Bool → List (List ℕ) → S → Option S
  unfolding find flag_and_value store
  parse_words args taken [] s = some s
  parse_words args true (_ ∷ words) s = parse_words args false words s
  parse_words args false (word ∷ words) s =
      let (name, value, separate) = flag_and_value word words in
      elim (find name args) [
        | none ↦ parse_words args false words s
        | some v ↦ elim (store v value separate s) [
          | none ↦ none
          | some (next, s') ↦ parse_words args next words s'
        ]
      ]

  -- The first word is the name of the program.
  unfoldable pub parse : List (Argument S) → List (List ℕ) → S → Option S
  unfolding parse_words
  parse args [] s = some s
  parse args (_ ∷ words) s = parse_words args false words s

-- The judger's variables: `help`, `show_version` and CONFIG.
pub record Config : Type 0 where
  pub help : Bool
  pub show_version : Bool
  pub limits : Limits
  pub cwd : List ℕ
  pub exe_path : List ℕ
  pub input_path : List ℕ
  pub output_path : List ℕ
  pub error_path : List ℕ
  pub args : List (List ℕ)
  pub env : List (List ℕ)
  pub log_path : List ℕ
  pub seccomp_rule_name : List ℕ
  pub uid : ℕ
  pub gid : ℕ

abbrev pub initial : Config
initial = record {
  help = false;
  show_version = false;
  limits = record {
    max_cpu_time = 0;
    max_real_time = 0;
    max_process_number = 0;
    memory_limit_check_only = false;
    max_output_size = 0;
    max_memory = 0;
    max_stack = 0;
  };
  cwd = [];
  exe_path = codes "1";
  input_path = codes "/dev/stdin";
  output_path = codes "/dev/stdout";
  error_path = codes "/dev/stderr";
  args = [];
  env = [];
  log_path = codes "judger_log.txt";
  seccomp_rule_name = [];
  uid = 65534;
  gid = 65534;
}

abbrev option : List (List ℕ) → Value Config → Argument Config
option names v = record { flags = names; value = v }

abbrev limit : (Limits → Limits) → Config → Config
limit change s = record s { limits = change s.limits }

-- The calls of `addArgument` in `main`.
abbrev pub arguments : List (Argument Config)
arguments =
    option (codes "-h" ∷ codes "--help" ∷ []) (flag (λ v s. record s { help = v }))
    ∷ option (codes "-v" ∷ codes "--version" ∷ []) (flag (λ v s. record s { show_version = v }))
    ∷ option (codes "-t" ∷ codes "--max_cpu_time" ∷ [])
        (uint32 (λ v. limit (λ l. record l { max_cpu_time = v })))
    ∷ option (codes "-r" ∷ codes "--max_real_time" ∷ [])
        (uint32 (λ v. limit (λ l. record l { max_real_time = v })))
    ∷ option (codes "-m" ∷ codes "--max_memory" ∷ [])
        (uint64 (λ v. limit (λ l. record l { max_memory = v })))
    ∷ option (codes "-only" ∷ codes "--memory_limit_check_only" ∷ [])
        (flag (λ v. limit (λ l. record l { memory_limit_check_only = v })))
    ∷ option (codes "-s" ∷ codes "--max_stack" ∷ [])
        (uint64 (λ v. limit (λ l. record l { max_stack = v })))
    ∷ option (codes "-p" ∷ codes "--max_process_number" ∷ [])
        (uint32 (λ v. limit (λ l. record l { max_process_number = v })))
    ∷ option (codes "-os" ∷ codes "--max_output_size" ∷ [])
        (uint64 (λ v. limit (λ l. record l { max_output_size = v })))
    ∷ option (codes "--cwd" ∷ []) (text (λ v s. record s { cwd = v }))
    ∷ option (codes "-e" ∷ codes "--exe_path" ∷ []) (text (λ v s. record s { exe_path = v }))
    ∷ option (codes "-i" ∷ codes "--input_path" ∷ []) (text (λ v s. record s { input_path = v }))
    ∷ option (codes "-o" ∷ codes "--output_path" ∷ []) (text (λ v s. record s { output_path = v }))
    ∷ option (codes "-ep" ∷ codes "--error_path" ∷ []) (text (λ v s. record s { error_path = v }))
    ∷ option (codes "--args" ∷ []) (texts (λ v s. record s { args = s.args ++ v ∷ [] }))
    ∷ option (codes "--env" ∷ []) (texts (λ v s. record s { env = s.env ++ v ∷ [] }))
    ∷ option (codes "--log_path" ∷ []) (text (λ v s. record s { log_path = v }))
    ∷ option (codes "-rule" ∷ codes "--seccomp_rule_name" ∷ [])
        (text (λ v s. record s { seccomp_rule_name = v }))
    ∷ option (codes "-u" ∷ codes "--uid" ∷ []) (uint32 (λ v s. record s { uid = v }))
    ∷ option (codes "-g" ∷ codes "--gid" ∷ []) (uint32 (λ v s. record s { gid = v }))
    ∷ []

-- What `main` comes to: an exception for a missing value, the help, the version, or the text of the
-- result.
pub data Main : Type 0 where
  threw printed_help printed_version : Main
  wrote : List ℕ → Main

abbrev pub with_config : Bool → Child → Config → Main
with_config root child s =
    if s.help
    then printed_help
    else if s.show_version
    then printed_version
    else wrote (print_result (run root child s.limits))

unfoldable pub main : Bool → Child → List (List ℕ) → Main
unfolding parse
main root child argv = elim (parse arguments argv initial) [
  | none ↦ threw
  | some s ↦ with_config root child s
]
