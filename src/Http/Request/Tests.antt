-- ===== src/Http/Request/Tests.antt =====
-- Runs and instances of the theorems on the request's header.
use new_rojcpp.Prelude.{ℕ, ◌≡◌, refl, List, [], ◌∷◌, ◌++◌, none, some, arith}
use new_rojcpp.Prelude.Text.{codes}
use new_rojcpp.Prelude.Decimal.{decimal, digits}
use new_rojcpp.Buffer.Growth.{contents}
use new_rojcpp.Http.Strings.{iequal}
use new_rojcpp.Http.Response.Status.{ContentType}
use new_rojcpp.Http.Request.{ParseRet, Phr, Request, atoll, header_value, parse_header}
use new_rojcpp.Http.Request.Atoll.{atoll-decimal}
use new_rojcpp.Http.Request.Header.{IsHeader, Reads, parse_header-Reads}

-- A parser that finds the same header in every text.
abbrev always : List ℕ → Phr
always t = record {
  ret = ParseRet.header_length 40;
  method = codes "GET";
  url = codes "/a?p=3";
  minor_version = 1;
  headers = (codes "Content-Length", codes "12") ∷ [];
}

abbrev fresh : Request
fresh = record {
  headers = [];
  method = [];
  url = [];
  path = [];
  minor_version = 0;
  header_len = 0;
  body_len = 0;
  content_type = ContentType.unknown;
  query_map = [];
  buff = record { raw = none; tot = 0; used = 0 };
}

header : IsHeader (always (contents fresh.buff)) 40 (codes "a") (codes "p=3") 12
unfolding header_value iequal digits
header = record {
  accepted = refl;
  url_path = refl;
  no_query = ground arith;
  length_line = refl;
  length_fits = omega arith;
}

parse_header-Reads_example :
    Reads (always (contents fresh.buff)) 40 (codes "a") (codes "p=3") 12 (parse_header always fresh)
parse_header-Reads_example = parse_header-Reads always fresh 40 (codes "a") (codes "p=3") 12 header

atoll-decimal_example : atoll (decimal 120 ++ codes "\r\n") ≡ some 120
atoll-decimal_example = atoll-decimal 120 (codes "\r\n") (omega arith) refl
