-- ===== src/Http/Query.antt =====
-- request::parse_query (src/http_request.cpp): the fields of a query string, by their positions.
-- The text is shorter than 2 ^ 31, as positions are `int`s.
pub mod RoundTrip
mod Tests
use new_rojcpp.Prelude.{
  ℕ, zero, suc, ◌+◌, ◌-◌, List, [], ◌∷◌, true, false, length, take, drop, ◌==◌, if◌then◌else◌,
}
use new_rojcpp.Prelude.Dict.{emplace, bytes_eq}
use new_rojcpp.Http.Strings.{trim}

-- The variables of the loop.
pub record Scan : Type 0 where
  pub pos : ℕ
  pub key : List ℕ
  pub query_map : List (List ℕ × List ℕ)

-- The text from one position to another.
pub slice : List ℕ → ℕ → ℕ → List ℕ
slice str pos i = take (i - pos) (drop pos str)

-- One round, for the character at `i`: '=' is 61 and '&' is 38.
pub step : List ℕ → ℕ → ℕ → Scan → Scan
step str i c s =
    if c == 61
    then record s { key = trim (slice str s.pos i); pos = i + 1 }
    else if c == 38
    then record s { pos = i + 1; query_map = emplace s.key (trim (slice str s.pos i)) s.query_map }
    else s

-- The loop from `i` on, with the characters that are left.
pub scan : List ℕ → List ℕ → ℕ → Scan → Scan
scan str [] i s = s
scan str (c ∷ cs) i s = scan str cs (suc i) (step str i c s)

-- What follows the loop; `pos` is not behind the end.
pub finish : List ℕ → Scan → List (List ℕ × List ℕ)
finish str s = elim (s.pos == 0) [
  | true ↦ []
  | false ↦ elim (length str - s.pos == 0) [
    | false ↦ emplace s.key (trim (slice str s.pos (length str))) s.query_map
    | true ↦ emplace s.key [] s.query_map
  ]
]

pub parse_query : List ℕ → List (List ℕ × List ℕ)
parse_query str = finish str (scan str str 0 (record { pos = 0; key = []; query_map = [] }))
