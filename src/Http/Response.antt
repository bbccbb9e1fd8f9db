-- ===== src/Http/Response.antt =====
-- include/http_response.h and src/http_responese.cpp: the response, whose text is collected in a
-- buffer; the text tables of include/tools/response_cv.hpp are in Status. The cookie and the URL
-- fields are left out, as nothing reads them.
pub mod Status
pub mod Text
mod Tests
use new_rojcpp.Prelude.{
  ℕ, zero, suc, ◌+◌, List, [], ◌∷◌, ◌++◌, Option, none, some, length, map, ◌==◌, if◌then◌else◌,
  true, false, take, ltb, ◌%◌, ◌^◌,
}
use new_rojcpp.Prelude.Decimal.{digits}
use new_rojcpp.Prelude.Text.{codes}
use new_rojcpp.Buffer.{Buffer, Allocator, append_buff, clear}
use new_rojcpp.Buffer.Growth.{contents}
use Status.{StatusType, ContentType, to_rep_string, to_content_type_str}
use mathlib.Core.List.{reverse}

pub record Response : Type 0 where
  pub headers : List (List ℕ × List ℕ)
  pub content : List ℕ
  pub body_type : ContentType
  pub status : StatusType
  pub rep_str : List ℕ
  pub buff : Buffer
  pub const_response : List ℕ

abbrev pub rep_server : List ℕ
rep_server = codes "Server: rojcpp\r\n"

abbrev pub header_end_sv : List ℕ
header_end_sv = codes "\r\n"

abbrev pub rep_not_found : List ℕ
rep_not_found = codes "HTTP/1.1 404 Not Found\r\n"

pub add_header : List ℕ → List ℕ → Response → Response
add_header key value res = record res { headers = res.headers ++ (key, value) ∷ [] }

pub clear_headers : Response → Response
clear_headers res = record res { headers = [] }

pub set_status : StatusType → Response → Response
set_status status res = record res { status = status }

pub reset : Response → Response
reset res = record res { headers = []; content = []; rep_str = [] }

unfoldable pub send_not_found : Response → Response
send_not_found res = record res { const_response = rep_not_found ++ (rep_server ++ header_end_sv) }

-- The bytes that `append_buff_number` appends: the digits' values, not their characters.
abbrev pub number_bytes : ℕ → List ℕ
number_bytes num = reverse (digits num)

-- `num_to_string<num>::value` of include/tools/response_cv.hpp
abbrev pub num_to_string : ℕ → List ℕ
num_to_string num =
    codes "Content-Length: " ++ (map (λ d. 48 + d) (reverse (digits num)) ++ codes "\r\n")

-- A `char` array as a `std::string_view`: up to its first zero.
unfoldable pub until_zero : List ℕ → List ℕ
until_zero [] = []
until_zero (c ∷ cs) = let rest = until_zero cs in if c == 0 then [] else c ∷ rest

module _ (alloc : Allocator) where
  -- Calls of `append_buff`, one after the other.
  unfoldable pub append_each : List (List ℕ) → Buffer → Option Buffer
  append_each [] b = some b
  append_each (p ∷ ps) b = elim (append_buff alloc p b) [
    | none ↦ none
    | some b' ↦ append_each ps b'
  ]

  with_parts : List (List ℕ) → Response → Option Response
  with_parts ps res = elim (append_each ps (clear res.buff)) [
    | none ↦ none
    | some b ↦ some (record res { buff = b })
  ]

  -- The overload for a `std::string`. `len_str` is the length cut to an `int`; where that is negative,
  -- as many bytes as its `std::size_t` says are read, far behind the text: that is `none`.
  pub set_status_and_content : StatusType → ContentType → List ℕ → Response → Option Response
  set_status_and_content status type str res =
      let len_str = length str % 2 ^ 32 in
      elim (ltb len_str (2 ^ 31)) [
        | false ↦ none
        | true ↦
            with_parts
              (codes (to_rep_string status)
                ∷ codes (to_content_type_str type)
                ∷ rep_server
                ∷ codes "content_length: "
                ∷ number_bytes len_str
                ∷ codes "\r\n\r\n"
                ∷ take len_str str
                ∷ [])
              res
      ]

  -- The overload for a literal of `N - 1` characters.
  pub set_status_and_literal : StatusType → ContentType → List ℕ → Response → Option Response
  set_status_and_literal status type content = with_parts (
      codes (to_rep_string status)
      ∷ codes (to_content_type_str type)
      ∷ rep_server
      ∷ num_to_string (length content)
      ∷ codes "\r\n"
      ∷ until_zero content
      ∷ [])

-- http_session::res_buff (src/http_session.cpp): what is sent.
unfoldable pub res_buff : Response → List ℕ
res_buff res = elim (length res.const_response == 0) [
  | false ↦ res.const_response
  | true ↦ contents res.buff
]
