-- ===== src/Judge/Server/Language.antt =====
-- The languages of libs/judgercpp/judge_server/src/utils.hpp, and the name of a file in its path.
use new_rojcpp.Prelude.{ℕ, List, [], ◌∷◌, Bool, true, false, ◌||◌, ◌==◌, if◌then◌else◌}
use new_rojcpp.Prelude.Text.{codes}
use new_rojcpp.Http.Strings.{iequal}

pub data SuportLang : Type 0 where
  cpp py3 unsuport : SuportLang

-- Python is mapped to CPP, as in the source.
unfoldable pub string_to_lang : List ℕ → SuportLang
unfolding iequal
string_to_lang lang =
    if iequal lang (codes "c++") || iequal lang (codes "cpp")
    then cpp
    else if iequal lang (codes "py")
        || iequal lang (codes "py3")
        || iequal lang (codes "python3")
        || iequal lang (codes "python")
    then cpp
    else unsuport

unfoldable pub is_sport_language : List ℕ → Bool
unfolding string_to_lang
is_sport_language lang = elim (string_to_lang lang) [ unsuport ↦ false | _ ↦ true ]

-- The text behind the last '/', or `from` if there is none.
after_slash : List ℕ → List ℕ → List ℕ
after_slash from [] = from
after_slash from (c ∷ cs) = if c == 47 then after_slash cs cs else after_slash from cs

-- `getBaseName`: without a '/' the first character is dropped all the same. An empty path is
-- undefined in the source.
pub get_base_name : List ℕ → List ℕ
unfolding after_slash
get_base_name [] = []
get_base_name (c ∷ cs) = after_slash cs (c ∷ cs)
