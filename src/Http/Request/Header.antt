-- ===== src/Http/Request/Header.antt =====
-- What request::parse_header reads out of a whole header.
use new_rojcpp.Prelude.{
  ℕ, suc, ◌+◌, ◌^◌, ◌<◌, ◌≡◌, ◌≢◌, refl, sym, ap, ◌∙◌, List, [], ◌∷◌, ◌++◌, map, Option, some,
  false, arith, ◌==◌, length, take, drop, take_append, drop_add, drop_append, append-nil,
}
use new_rojcpp.Prelude.Text.{codes}
use new_rojcpp.Prelude.Decimal.{decimal, reverse-digits}
use new_rojcpp.Buffer.Growth.{contents}
use new_rojcpp.Http.Query.{parse_query}
use new_rojcpp.Http.Request.{
  ParseRet, Phr, Request, header_value, get_header_value, find_char, body_length, atoll, set_url,
  parsed, parse_header,
}
use new_rojcpp.Http.Request.Atoll.{atoll-decimal}

-- The character stands nowhere in the text.
abbrev pub Lacks : ℕ → List ℕ → Type 0
Lacks c [] = Unit
Lacks c (x ∷ xs) = (x ≢ c) × Lacks c xs

find_char-append :
    (c : ℕ) (xs rest : List ℕ) → Lacks c xs → find_char c (xs ++ c ∷ rest) ≡ some (length xs)
unfolding find_char
find_char-append c [] rest h = ground arith
find_char-append c (x ∷ xs) rest h =
    let differs : (x == c) ≡ false = ground arith in
    rw (differs, find_char, find_char-append c xs rest h.1) refl

body_length-decimal : (n : ℕ) → n < 2 ^ 63 → body_length (decimal n) ≡ some n
unfolding body_length
body_length-decimal n h =
    let (d, ds, first) = reverse-digits n in
    let e = ap (map (λ k. 48 + k)) first in
    ap body_length e ∙ ap atoll (sym e ∙ sym (append-nil (decimal n))) ∙ atoll-decimal n [] h tt

-- What the header says, when the parser accepts it.
pub record IsHeader (p : Phr) (n : ℕ) (path query : List ℕ) (body : ℕ) : Type 0 where
  pub accepted : p.ret ≡ ParseRet.header_length n
  pub url_path : p.url ≡ 47 ∷ path ++ 63 ∷ query
  pub no_query : Lacks 63 path
  pub length_line : header_value (codes "content-length") p.headers ≡ decimal body
  pub length_fits : body < 2 ^ 63

-- The request as `parse_header` leaves it, and what it returns.
pub record Reads (p : Phr) (n : ℕ) (path query : List ℕ) (body : ℕ)
    (r : Option (ParseRet × Request)) : Type 0 where
  pub request : Request
  pub returned : r ≡ some (ParseRet.header_length n, request)
  pub method_read : request.method ≡ p.method
  pub path_read : request.path ≡ 47 ∷ path
  pub query_read : request.query_map ≡ parse_query query
  pub header_len_read : request.header_len ≡ n
  pub body_len_read : request.body_len ≡ body

-- When the parser accepts a header whose URL is a path that begins with '/' and a query, divided
-- by the first '?', and whose Content-Length is a decimal number below 2 ^ 63: `parse_header`
-- returns the header's length, and the request holds the path, the fields of the query, the
-- method, the header's length and the number as the length of the body.
pub parse_header-Reads :
    (phr_parse_request : List ℕ → Phr) (req : Request) (n : ℕ) (path query : List ℕ) (body : ℕ)
    → IsHeader (phr_parse_request (contents req.buff)) n path query body
    → Reads
        (phr_parse_request (contents req.buff))
        n
        path
        query
        body
        (parse_header phr_parse_request req)
unfolding parse_header set_url parsed get_header_value find_char
parse_header-Reads phr_parse_request req n path query body h =
    let p = phr_parse_request (contents req.buff) in
    let length_read : body_length (header_value (codes "content-length") p.headers) ≡ some body =
      ap body_length h.length_line ∙ body_length-decimal body h.length_fits in
    let slash : find_char 47 p.url ≡ some 0 = ap (find_char 47) h.url_path in
    let mark : find_char 63 p.url ≡ some (suc (length path)) =
      ap (find_char 63) h.url_path
      ∙ find_char-append 63 (47 ∷ path) query (ground arith, h.no_query) in
    record {
      request = record (parsed phr_parse_request req) {
        header_len = n;
        body_len = body;
        path = take (suc (length path)) p.url;
        query_map = parse_query (drop (suc (length path) + 1) p.url);
      };
      returned = rw (h.accepted, parse_header, length_read, slash, set_url, mark) refl;
      method_read = refl;
      path_read = ap (take (suc (length path))) h.url_path ∙ take_append (47 ∷ path) (63 ∷ query);
      query_read =
          ap (λ u. parse_query (drop (suc (length path) + 1) u)) h.url_path
          ∙ ap parse_query (
              drop_add (suc (length path)) 1 (47 ∷ path ++ 63 ∷ query)
              ∙ ap (drop 1) (drop_append (47 ∷ path) (63 ∷ query)));
      header_len_read = refl;
      body_len_read = refl;
    }

-- Where the parser wants more, `parse_header` says so, and the buffer stays.
pub parse_header_incomplete :
    (phr_parse_request : List ℕ → Phr) (req : Request)
    → (phr_parse_request (contents req.buff)).ret ≡ ParseRet.incomplete
    → parse_header phr_parse_request req ≡ some (ParseRet.incomplete, parsed phr_parse_request req)
unfolding parse_header
parse_header_incomplete phr_parse_request req e = rw (parse_header, e) refl
