-- ===== src/Http/Request.antt =====
-- include/http_request.h and src/http_request.cpp: the request and what is read out of its header.
-- The vendored parser phr_parse_request (include/tools/picohttpparser.h) is a parameter. Its views
-- into the read buffer are the texts themselves; the cookie, the user and the sizes that nothing
-- sets are left out.
pub mod Atoll
pub mod Header
mod Tests
use new_rojcpp.Prelude.{
  ℕ, zero, suc, ◌+◌, ◌-◌, ◌*◌, ◌%◌, ◌^◌, List, [], ◌∷◌, Option, none, some, Bool, true, false, not,
  ◌&&◌, ◌||◌, ltb, leb, ◌==◌, if◌then◌else◌, length, take, drop,
}
use new_rojcpp.Prelude.Decimal.{digits_value}
use new_rojcpp.Prelude.Text.{codes}
use new_rojcpp.Buffer.{Buffer, size_mod}
use new_rojcpp.Buffer.Growth.{contents}
use new_rojcpp.Http.Strings.{iequal}
use new_rojcpp.Http.Query.{parse_query}
use new_rojcpp.Http.Response.Status.{ContentType}

-- -1, -2, or the length of the header.
pub data ParseRet : Type 0 where
  parse_error incomplete : ParseRet
  header_length : ℕ → ParseRet

-- What phr_parse_request returns and what it sets: names and values of at most 32 headers.
pub record Phr : Type 0 where
  pub ret : ParseRet
  pub method : List ℕ
  pub url : List ℕ
  pub minor_version : ℕ
  pub headers : List (List ℕ × List ℕ)

pub record Request : Type 0 where
  pub headers : List (List ℕ × List ℕ)
  pub method : List ℕ
  pub url : List ℕ
  pub path : List ℕ
  pub minor_version : ℕ
  pub header_len : ℕ
  pub body_len : ℕ
  pub content_type : ContentType
  pub query_map : List (List ℕ × List ℕ)
  pub buff : Buffer

unfoldable pub header_value : List ℕ → List (List ℕ × List ℕ) → List ℕ
header_value key [] = []
header_value key ((name, value) ∷ hs) = if iequal name key then value else header_value key hs

unfoldable pub get_header_value : List ℕ → Request → List ℕ
unfolding header_value
get_header_value key req = header_value key req.headers

abbrev is_space : ℕ → Bool
is_space c = c == 32 || (leb 9 c && leb c 13)

negative : ℕ → Option ℕ
negative n = if leb n (2 ^ 63) then some ((size_mod - n) % size_mod) else none

positive : ℕ → Option ℕ
positive n = if ltb n (2 ^ 63) then some n else none

-- '-' is 45 and '+' is 43.
signed : List ℕ → Option ℕ
signed [] = positive 0
signed (c ∷ cs) =
    if c == 45
    then negative (digits_value 0 cs)
    else if c == 43
    then positive (digits_value 0 cs)
    else positive (digits_value 0 (c ∷ cs))

-- `atoll`, as a `size_t`; a number that is no `long long` is undefined, here `none`.
pub atoll : List ℕ → Option ℕ
atoll [] = signed []
atoll (c ∷ cs) = let rest = atoll cs in if is_space c then rest else signed (c ∷ cs)

-- `find` of a character
pub find_char : ℕ → List ℕ → Option ℕ
find_char c [] = none
find_char c (x ∷ xs) =
    if x == c then some 0 else elim (find_char c xs) [ none ↦ none | some n ↦ some (suc n) ]

body_length : List ℕ → Option ℕ
body_length [] = some 0
body_length value = atoll value

-- The path and the fields of a URL with a '/'; '?' is 63.
set_url : Request → Request
set_url req = elim (find_char 63 req.url) [
  | some npos ↦ record req {
    path = take npos req.url;
    query_map = parse_query (drop (npos + 1) req.url);
  }
  | none ↦ record req { path = req.url }
]

module _ (phr_parse_request : List ℕ → Phr) where
  unfoldable pub parsed : Request → Request
  parsed req =
      let p = phr_parse_request (contents req.buff) in
      record req {
        headers = p.headers;
        method = p.method;
        url = p.url;
        minor_version = p.minor_version;
      }

  -- `none` is a call of `atoll` that is undefined. '/' is 47.
  pub parse_header : Request → Option (ParseRet × Request)
  parse_header req =
      let r = parsed req in
      elim (phr_parse_request (contents req.buff)).ret [
        | ParseRet.header_length n ↦
            elim (body_length (get_header_value (codes "content-length") r)) [
              | none ↦ none
              | some len ↦
                  let r' : Request = record r { header_len = n; body_len = len } in
                  elim (find_char 47 r'.url) [
                    | none ↦ some (ParseRet.parse_error, r')
                    | some _ ↦ some (ParseRet.header_length n, set_url r')
                  ]
            ]
        | other ↦ some (other, r)
      ]

pub has_body : Request → Bool
has_body req = not (req.body_len == 0)

is_prefix : List ℕ → List ℕ → Bool
is_prefix [] t = true
is_prefix (c ∷ s) [] = false
is_prefix (c ∷ s) (d ∷ t) = c == d && is_prefix s t

-- `t.find(s) != npos`
pub contains : List ℕ → List ℕ → Bool
contains s [] = is_prefix s []
contains s (c ∷ t) = is_prefix s (c ∷ t) || contains s t

is_unknown : ContentType → Bool
is_unknown ContentType.unknown = true
is_unknown _ = false

pub get_content_type : Request → ContentType
get_content_type req =
    let value = get_header_value (codes "content-type") req in
    if not (is_unknown req.content_type)
    then req.content_type
    else if length value == 0
    then req.content_type
    else if contains (codes "application/x-www-form-url_encoded") value
    then ContentType.urlencoded
    else if contains (codes "multipart/form-data") value
    then ContentType.multipart
    else if contains (codes "application/octet-stream") value
    then ContentType.octet_stream
    else if contains (codes "application/json") value
    then ContentType.json
    else ContentType.unknown

pub set_content_type : ContentType → Request → Request
set_content_type type req = record req { content_type = type }
