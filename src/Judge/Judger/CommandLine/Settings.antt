-- ===== src/Judge/Judger/CommandLine/Settings.antt =====
-- The command line of libs/judgercpp/judge_server/src/judgeArgs.hpp as a list of options.
use new_rojcpp.Prelude.{ℕ, ◌^◌, ◌<◌, ◌≡◌, refl, List, [], ◌∷◌, ◌++◌, true, false, map, bytes_beq}
use new_rojcpp.Prelude.Text.{codes, AllAre, all_are, all_are-AllAre}
use new_rojcpp.Judge.Judger.{Limits}
use new_rojcpp.Judge.Judger.CommandLine.{Config, find, is_empty}
use new_rojcpp.Judge.Judger.CommandLine.Shell.{is_bare}
use new_rojcpp.Judge.Judger.CommandLine.Options.{Setting, AreKnown}
use new_rojcpp.Judge.Judger.CommandLine.Kinds.{
  is_flag_char, IsText, text_setting, number_setting, texts_setting-IsKnown,
}
use new_rojcpp.Judge.Server.Args.{JudgeArgs}
use Prim.Native.String.{String}

abbrev pub set_limit : (Limits → Limits) → Config → Config
set_limit change s = record s { limits = change s.limits }

abbrev pub args_setting : List ℕ → Setting
args_setting = text_setting "--args" (λ v s. record s { args = s.args ++ v ∷ [] })

abbrev pub env_setting : List ℕ → Setting
env_setting = text_setting "--env" (λ v s. record s { env = s.env ++ v ∷ [] })

-- The options of a command line, in its order.
abbrev pub settings_of : JudgeArgs → List (List Setting)
settings_of a =
    (number_setting "--max_cpu_time" (λ v. set_limit (λ l. record l { max_cpu_time = v }))
        a.max_cpu_time
      ∷ [])
    ∷ (number_setting "--max_real_time" (λ v. set_limit (λ l. record l { max_real_time = v }))
          a.max_real_time
        ∷ [])
    ∷ (number_setting "--max_process_number"
          (λ v. set_limit (λ l. record l { max_process_number = v })) a.max_process_number
        ∷ [])
    ∷ (number_setting "--max_memory" (λ v. set_limit (λ l. record l { max_memory = v }))
          a.max_memory
        ∷ [])
    ∷ (number_setting "--max_stack" (λ v. set_limit (λ l. record l { max_stack = v })) a.max_stack
        ∷ [])
    ∷ (number_setting "--max_output_size" (λ v. set_limit (λ l. record l { max_output_size = v }))
          a.max_output_size
        ∷ [])
    ∷ (record (text_setting "--seccomp_rule_name" (λ v s. record s { seccomp_rule_name = v })
          a.seccomp_rule_name) { quotes = false }
        ∷ [])
    ∷ (text_setting "--cwd" (λ v s. record s { cwd = v }) a.cwd ∷ [])
    ∷ (text_setting "--input_path" (λ v s. record s { input_path = v }) a.input_path ∷ [])
    ∷ (text_setting "--output_path" (λ v s. record s { output_path = v }) a.output_path ∷ [])
    ∷ (text_setting "--error_path" (λ v s. record s { error_path = v }) a.error_path ∷ [])
    ∷ (text_setting "--log_path" (λ v s. record s { log_path = v }) a.log_path ∷ [])
    ∷ (text_setting "--exe_path" (λ v s. record s { exe_path = v }) a.exe_path ∷ [])
    ∷ map args_setting a.args
    ∷ map env_setting a.env
    ∷ (number_setting "--gid" (λ v s. record s { gid = v }) a.gid ∷ [])
    ∷ (number_setting "--uid" (λ v s. record s { uid = v }) a.uid ∷ [])
    ∷ []

-- No text is empty, and none has a character that means something between quotes.
abbrev pub AreTexts : List (List ℕ) → Type 0
AreTexts [] = Unit
AreTexts (q ∷ qs) = IsText q × AreTexts qs

pub record IsReadable (a : JudgeArgs) : Type 0 where
  pub cpu : a.max_cpu_time < 2 ^ 32
  pub real : a.max_real_time < 2 ^ 32
  pub processes : a.max_process_number < 2 ^ 32
  pub memory : a.max_memory < 2 ^ 64
  pub stack : a.max_stack < 2 ^ 64
  pub output_size : a.max_output_size < 2 ^ 64
  pub rule_there : is_empty a.seccomp_rule_name ≡ false
  pub rule_bare : AllAre is_bare a.seccomp_rule_name
  pub cwd : IsText a.cwd
  pub input : IsText a.input_path
  pub output : IsText a.output_path
  pub error : IsText a.error_path
  pub log : IsText a.log_path
  pub exe : IsText a.exe_path
  pub args : AreTexts a.args
  pub env : AreTexts a.env
  pub group : a.gid < 2 ^ 32
  pub user : a.uid < 2 ^ 32

pub flags_are :
    (name : String) → all_are is_flag_char (codes name) ≡ true → AllAre is_flag_char (codes name)
flags_are name h = all_are-AllAre is_flag_char (codes name) h

pub append-AreKnown : (os ps : List Setting) → AreKnown os → AreKnown ps → AreKnown (os ++ ps)
append-AreKnown [] ps h k = k
append-AreKnown (o ∷ os) ps h k = (h.0, append-AreKnown os ps h.1 k)

pub args-AreKnown : (qs : List (List ℕ)) → AreTexts qs → AreKnown (map args_setting qs)
unfolding find bytes_beq
args-AreKnown [] h = tt
args-AreKnown (q ∷ qs) h =
    (texts_setting-IsKnown "--args" (flags_are "--args" refl) _ q refl h.0, args-AreKnown qs h.1)

pub env-AreKnown : (qs : List (List ℕ)) → AreTexts qs → AreKnown (map env_setting qs)
unfolding find bytes_beq
env-AreKnown [] h = tt
env-AreKnown (q ∷ qs) h =
    (texts_setting-IsKnown "--env" (flags_are "--env" refl) _ q refl h.0, env-AreKnown qs h.1)
