-- ===== src/Site/Body/Loaded.antt =====
-- What is read in the body that a browser makes of a submission.
use new_rojcpp.Prelude.{ℕ, ◌^◌, ◌<◌, ◌≡◌, List, [], ◌∷◌, some, bytes_beq, if◌then◌else◌}
use new_rojcpp.Prelude.Dict.{lookup, bytes_eq}
use new_rojcpp.Prelude.Text.{codes, AllAre}
use new_rojcpp.Json.Parse.{Config}
use new_rojcpp.Json.Parse.Reading.{is_key_char, IsValue}
use new_rojcpp.Json.Object.{Field, text, number, Object}
use new_rojcpp.Json.Values.{quoted, int_text, EndsPlain, is_plain_char}
use new_rojcpp.Site.Routes.{JudgeEntiy}

-- The entries of a submission.
abbrev pub entries_of : JudgeEntiy → Config
entries_of j =
    (codes "language", quoted j.language)
    ∷ (codes "code", quoted j.code)
    ∷ (codes "memoryLimit", int_text j.memory_limit)
    ∷ (codes "timeLimit", int_text j.time_limit)
    ∷ (codes "pid", quoted j.pid)
    ∷ []

-- The entries in any order.
abbrev pub SameEntries : Config → Config → Type 0
SameEntries m n = (name : List ℕ) → lookup name m ≡ lookup name n

-- No text ends with a backslash or has a control character but line ends and tabs, and a number is
-- one of 32 bits.
pub record IsSendable (j : JudgeEntiy) : Type 0 where
  pub language : EndsPlain j.language
  pub code : EndsPlain j.code
  pub pid : EndsPlain j.pid
  pub plain_language : AllAre is_plain_char j.language
  pub plain_code : AllAre is_plain_char j.code
  pub plain_pid : AllAre is_plain_char j.pid
  pub memory_limit : j.memory_limit < 2 ^ 32
  pub time_limit : j.time_limit < 2 ^ 32

-- Every entry has the property.
abbrev Every : (List ℕ → List ℕ → Type 0) → Config → Type 0
Every P m = (name value : List ℕ) → lookup name m ≡ some value → P name value

module _ (P : List ℕ → List ℕ → Type 0) where
  abbrev AllOf : Config → Type 0
  AllOf [] = Unit
  AllOf ((k, v) ∷ m) = P k v × AllOf m

-- The field that an entry of a submission becomes.
abbrev decoded : JudgeEntiy → List ℕ → Field
decoded j name =
    if bytes_beq (codes "language") name
    then text j.language
    else if bytes_beq (codes "code") name
    then text j.code
    else if bytes_beq (codes "memoryLimit") name
    then number j.memory_limit
    else if bytes_beq (codes "timeLimit") name
    then number j.time_limit
    else text j.pid

abbrev IsEntry : List ℕ → List ℕ → Type 0
IsEntry k v = AllAre is_key_char k × IsValue v
