-- ===== src/Http/Response/Tests.antt =====
-- Runs and instances of the theorems on the response.
use new_rojcpp.Prelude.{
  ℕ, ◌≡◌, refl, List, [], ◌∷◌, arith, replicate, length-replicate, some, length, ◌<◌, ◌^◌,
}
use new_rojcpp.Prelude.Text.{codes}
use new_rojcpp.Prelude.Decimal.{digits}
use new_rojcpp.Buffer.{Allocator}
use new_rojcpp.Buffer.Growth.{IsValid}
use new_rojcpp.Http.Response.{Response, set_status_and_content, num_to_string}
use new_rojcpp.Http.Response.Status.{StatusType, ContentType, to_rep_string, to_content_type_str}
use new_rojcpp.Http.Response.Text.{Holds, content_text, set_status_and_content-Holds}

abbrev zeros : Allocator
zeros = record { allocate = λ n. replicate n 0; length-allocate = λ n. length-replicate n 0 }

-- A response that has been filled before.
abbrev used : Response
used = record {
  headers = [];
  content = [];
  body_type = ContentType.unknown;
  status = StatusType.init;
  rep_str = [];
  buff = record { raw = some (1 ∷ 2 ∷ 3 ∷ []); tot = 3; used = 2 };
  const_response = [];
}

used-IsValid : IsValid used.buff
used-IsValid = record { sized = refl; within = omega arith; bounded = omega arith }

length_line : num_to_string 120 ≡ codes "Content-Length: 120\r\n"
unfolding digits
length_line = refl

abbrev body : List ℕ
body = codes "[1]"

content_fits : length (content_text StatusType.ok ContentType.json body) < 2 ^ 31
unfolding digits to_rep_string to_content_type_str
content_fits = omega arith

set_status_and_content-Holds_example :
    Holds used
      (content_text StatusType.ok ContentType.json body)
      (set_status_and_content zeros StatusType.ok ContentType.json body used)
set_status_and_content-Holds_example =
    set_status_and_content-Holds zeros StatusType.ok ContentType.json body used used-IsValid
      content_fits (omega arith)
