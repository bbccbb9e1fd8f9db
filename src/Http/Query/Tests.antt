-- ===== src/Http/Query/Tests.antt =====
-- Runs and instances of the theorems on the query strings.
use new_rojcpp.Prelude.{ℕ, ◌≡◌, refl, List, [], ◌∷◌, arith, bytes_beq}
use new_rojcpp.Prelude.Dict.{lookup, emplace, bytes_eq}
use new_rojcpp.Prelude.Text.{codes}
use new_rojcpp.Http.Strings.{trim, trim_left, trim_right, leading}
use new_rojcpp.Http.Query.{slice, step, scan, finish, parse_query}
use new_rojcpp.Http.Query.RoundTrip.{AreFields, print_query, parse_query-print_query}

-- The blanks around a key go; a field without '=' gets the key before it, and is not entered.
reads : parse_query (codes "foo =bar&x&n=") ≡ (codes "n", []) ∷ (codes "foo", codes "bar") ∷ []
unfolding parse_query scan step finish slice trim trim_left trim_right leading emplace lookup
    bytes_beq
reads = refl

abbrev foo_bar : List ℕ × List ℕ
foo_bar = (codes "foo", codes "bar")

abbrev page : List ℕ × List ℕ
page = (codes "p", codes "3")

fields : AreFields (foo_bar ∷ page ∷ [])
unfolding leading
fields = ground arith

parse_query-print_query_example :
    lookup (codes "p") (parse_query (print_query foo_bar (page ∷ [])))
    ≡ lookup (codes "p") (foo_bar ∷ page ∷ [])
parse_query-print_query_example = parse_query-print_query foo_bar (page ∷ []) (codes "p") fields
