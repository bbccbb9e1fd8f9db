-- ===== src/Site/Body/Tests.antt =====
-- A body that is written out.
use new_rojcpp.Prelude.{◌≡◌, refl, [], ◌∷◌}
use new_rojcpp.Prelude.Decimal.{digits}
use new_rojcpp.Prelude.Text.{codes}
use new_rojcpp.Json.Parse.{Config}
use new_rojcpp.Json.Parse.RoundTrip.{Blanks, object_text}
use new_rojcpp.Json.Values.{quoted, int_text}
use new_rojcpp.Site.Routes.{JudgeEntiy}
use new_rojcpp.Site.Body.Loaded.{entries_of}

abbrev entity : JudgeEntiy
entity = record {
  language = codes "cpp";
  code = codes "int main(){puts(\"{\");}";
  pid = codes "1000";
  memory_limit = 128;
  time_limit = 1000;
}

abbrev in_order : Config → Config
in_order m = m

-- As `JSON.stringify` writes it.
body_text :
    object_text [] (entries_of entity)
    ≡ codes
        "{\"language\":\"cpp\",\"code\":\"int main(){puts(\\\"{\\\");}\",\"memoryLimit\":128,\"timeLimit\":1000,\"pid\":\"1000\"}"
unfolding digits
body_text = refl

-- The entries behind the first one.
abbrev others : Config
others =
    (codes "code", quoted entity.code)
    ∷ (codes "memoryLimit", int_text entity.memory_limit)
    ∷ (codes "timeLimit", int_text entity.time_limit)
    ∷ (codes "pid", quoted entity.pid)
    ∷ []

abbrev spaces : Blanks
spaces = record {
  within = 32 ∷ [];
  colon = [];
  value = 32 ∷ [];
  comma = 9 ∷ [];
  next = 10 ∷ 32 ∷ [];
}
