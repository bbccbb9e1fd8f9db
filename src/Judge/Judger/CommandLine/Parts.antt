-- ===== src/Judge/Judger/CommandLine/Parts.antt =====
-- The parts of the command line, each the text of its options.
use new_rojcpp.Prelude.{
  ℕ, ◌≡◌, refl, sym, ap, ◌∙◌, List, [], ◌∷◌, ◌++◌, false, map, joined, append_assoc, arith,
  bytes_beq, ◌==◌, ◌||◌,
}
use new_rojcpp.Prelude.Decimal.{decimal}
use new_rojcpp.Prelude.Text.{codes, AllAre}
use new_rojcpp.Judge.Judger.CommandLine.{find}
use new_rojcpp.Judge.Judger.CommandLine.Shell.{bare, quoting, printed, line, is_inside}
use new_rojcpp.Judge.Judger.CommandLine.Options.{Setting, word_of, AreKnown}
use new_rojcpp.Judge.Judger.CommandLine.Kinds.{
  text_setting-IsKnown, number_setting-IsKnown, long_setting-IsKnown, bare_setting-IsKnown,
}
use new_rojcpp.Judge.Server.Args.{JudgeArgs, path_option, quoted_chars, number_option, texts_option}
use Prim.Native.String.{String}
use new_rojcpp.Judge.Judger.CommandLine.Settings.{
  args_setting, env_setting, settings_of, IsReadable, flags_are, append-AreKnown, args-AreKnown,
  env-AreKnown,
}

line-append :
    (os ps : List Setting)
    → line (map word_of (os ++ ps)) ≡ line (map word_of os) ++ line (map word_of ps)
line-append [] ps = refl
line-append (o ∷ os) ps =
    ap (λ t. printed (word_of o) ++ 32 ∷ t) (line-append os ps)
    ∙ sym (append_assoc (printed (word_of o)) (32 ∷ line (map word_of os)) (line (map word_of ps)))

quoted_chars-inside : (q : List ℕ) → AllAre is_inside q → quoted_chars q ≡ q
unfolding quoted_chars
quoted_chars-inside [] h = refl
quoted_chars-inside (c ∷ cs) h =
    let plain : (c == 34 || c == 92) ≡ false = ground (arith, h.0) in
    rw (quoted_chars, plain, quoted_chars-inside cs h.1) refl

path_option-line :
    (name : String) (q : List ℕ)
    → AllAre is_inside q
    → path_option name q ≡ line (quoting (codes name) q ∷ [])
unfolding path_option
path_option-line name q h =
    rw (path_option, quoted_chars-inside q h)
      (ap (λ t. codes name ++ 34 ∷ t) (sym (append_assoc q (34 ∷ []) (32 ∷ [])))
        ∙ sym (append_assoc (codes name) (34 ∷ (q ++ 34 ∷ [])) (32 ∷ [])))

number_option-line :
    (name : String) (n : ℕ) → number_option name n ≡ line (bare (codes name ++ decimal n) ∷ [])
unfolding number_option
number_option-line name n = sym (append_assoc (codes name) (decimal n) (32 ∷ []))

-- The text of a part in quotes and of what stands behind.
quoted-append : (q rest : List ℕ) → q ++ 34 ∷ 32 ∷ rest ≡ (q ++ 34 ∷ []) ++ 32 ∷ rest
quoted-append q rest = sym (append_assoc q (34 ∷ []) (32 ∷ rest))

texts_option-args :
    (qs : List (List ℕ)) → texts_option "--args=" qs ≡ line (map word_of (map args_setting qs))
unfolding texts_option
texts_option-args [] = refl
texts_option-args (q ∷ qs) =
    ap (λ t. codes "--args=" ++ 34 ∷ (q ++ 34 ∷ 32 ∷ t)) (texts_option-args qs)
    ∙ ap (λ t. codes "--args=" ++ 34 ∷ t) (quoted-append q _)

texts_option-env :
    (qs : List (List ℕ)) → texts_option "--env=" qs ≡ line (map word_of (map env_setting qs))
unfolding texts_option
texts_option-env [] = refl
texts_option-env (q ∷ qs) =
    ap (λ t. codes "--env=" ++ 34 ∷ (q ++ 34 ∷ 32 ∷ t)) (texts_option-env qs)
    ∙ ap (λ t. codes "--env=" ++ 34 ∷ t) (quoted-append q _)

bare_option-line :
    (name : String) (q : List ℕ) → codes name ++ (q ++ 32 ∷ []) ≡ line (bare (codes name ++ q) ∷ [])
bare_option-line name q = sym (append_assoc (codes name) q (32 ∷ []))

-- The parts of a command line and their options: each part is the text of options that are known.
infixr 20 ◌&◌
pub data Parts : List (List ℕ) → List (List Setting) → Type 0 where
  end : Parts [] []
  ◌&◌ :
      {p : List ℕ} {ps : List (List ℕ)} {os : List Setting} {oss : List (List Setting)}
      → (p ≡ line (map word_of os)) × AreKnown os
      → Parts ps oss
      → Parts (p ∷ ps) (os ∷ oss)

pub joined-line :
    {ps : List (List ℕ)} {oss : List (List Setting)}
    → Parts ps oss
    → joined ps ≡ line (map word_of (joined oss))
joined-line end = refl
joined-line (◌&◌ {p} {ps} {os} {oss} h k) =
    ap (◌++◌ p) (joined-line k)
    ∙ ap (λ t. t ++ line (map word_of (joined oss))) h.0
    ∙ sym (line-append os (joined oss))

pub joined-AreKnown :
    {ps : List (List ℕ)} {oss : List (List Setting)} → Parts ps oss → AreKnown (joined oss)
joined-AreKnown end = tt
joined-AreKnown (◌&◌ {p} {ps} {os} {oss} h k) =
    append-AreKnown os (joined oss) h.1 (joined-AreKnown k)

-- The command line behind its first blank.
abbrev pub parts_of : JudgeArgs → List (List ℕ)
parts_of a =
    number_option "--max_cpu_time=" a.max_cpu_time
    ∷ number_option "--max_real_time=" a.max_real_time
    ∷ number_option "--max_process_number=" a.max_process_number
    ∷ number_option "--max_memory=" a.max_memory
    ∷ number_option "--max_stack=" a.max_stack
    ∷ number_option "--max_output_size=" a.max_output_size
    ∷ (codes "--seccomp_rule_name=" ++ (a.seccomp_rule_name ++ 32 ∷ []))
    ∷ path_option "--cwd=" a.cwd
    ∷ path_option "--input_path=" a.input_path
    ∷ path_option "--output_path=" a.output_path
    ∷ path_option "--error_path=" a.error_path
    ∷ path_option "--log_path=" a.log_path
    ∷ path_option "--exe_path=" a.exe_path
    ∷ texts_option "--args=" a.args
    ∷ texts_option "--env=" a.env
    ∷ number_option "--gid=" a.gid
    ∷ number_option "--uid=" a.uid
    ∷ []

pub settings-Parts : (a : JudgeArgs) → IsReadable a → Parts (parts_of a) (settings_of a)
unfolding find bytes_beq
settings-Parts a h =
    (
      number_option-line "--max_cpu_time=" a.max_cpu_time,
      (
        number_setting-IsKnown "--max_cpu_time" (flags_are "--max_cpu_time" refl) _ a.max_cpu_time
            refl h.cpu,
        tt,
      ),
    )
    & (
      number_option-line "--max_real_time=" a.max_real_time,
      (
        number_setting-IsKnown "--max_real_time" (flags_are "--max_real_time" refl) _
            a.max_real_time refl h.real,
        tt,
      ),
    )
    & (
      number_option-line "--max_process_number=" a.max_process_number,
      (
        number_setting-IsKnown "--max_process_number" (flags_are "--max_process_number" refl) _
            a.max_process_number refl h.processes,
        tt,
      ),
    )
    & (
      number_option-line "--max_memory=" a.max_memory,
      (
        long_setting-IsKnown "--max_memory" (flags_are "--max_memory" refl) _ a.max_memory refl
            h.memory,
        tt,
      ),
    )
    & (
      number_option-line "--max_stack=" a.max_stack,
      (
        long_setting-IsKnown "--max_stack" (flags_are "--max_stack" refl) _ a.max_stack refl
            h.stack,
        tt,
      ),
    )
    & (
      number_option-line "--max_output_size=" a.max_output_size,
      (
        long_setting-IsKnown "--max_output_size" (flags_are "--max_output_size" refl) _
            a.max_output_size refl h.output_size,
        tt,
      ),
    )
    & (
      bare_option-line "--seccomp_rule_name=" a.seccomp_rule_name,
      (
        bare_setting-IsKnown "--seccomp_rule_name" (flags_are "--seccomp_rule_name" refl) _
            a.seccomp_rule_name refl h.rule_there h.rule_bare,
        tt,
      ),
    )
    & (
      path_option-line "--cwd=" a.cwd h.cwd.1,
      (text_setting-IsKnown "--cwd" (flags_are "--cwd" refl) _ a.cwd refl h.cwd, tt),
    )
    & (
      path_option-line "--input_path=" a.input_path h.input.1,
      (
        text_setting-IsKnown "--input_path" (flags_are "--input_path" refl) _ a.input_path refl
            h.input,
        tt,
      ),
    )
    & (
      path_option-line "--output_path=" a.output_path h.output.1,
      (
        text_setting-IsKnown "--output_path" (flags_are "--output_path" refl) _ a.output_path refl
            h.output,
        tt,
      ),
    )
    & (
      path_option-line "--error_path=" a.error_path h.error.1,
      (
        text_setting-IsKnown "--error_path" (flags_are "--error_path" refl) _ a.error_path refl
            h.error,
        tt,
      ),
    )
    & (
      path_option-line "--log_path=" a.log_path h.log.1,
      (text_setting-IsKnown "--log_path" (flags_are "--log_path" refl) _ a.log_path refl h.log, tt),
    )
    & (
      path_option-line "--exe_path=" a.exe_path h.exe.1,
      (text_setting-IsKnown "--exe_path" (flags_are "--exe_path" refl) _ a.exe_path refl h.exe, tt),
    )
    & (texts_option-args a.args, args-AreKnown a.args h.args)
    & (texts_option-env a.env, env-AreKnown a.env h.env)
    & (
      number_option-line "--gid=" a.gid,
      (number_setting-IsKnown "--gid" (flags_are "--gid" refl) _ a.gid refl h.group, tt),
    )
    & (
      number_option-line "--uid=" a.uid,
      (number_setting-IsKnown "--uid" (flags_are "--uid" refl) _ a.uid refl h.user, tt),
    )
    & end
