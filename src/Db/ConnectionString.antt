-- ===== src/Db/ConnectionString.antt =====
-- libs/modern_cppdb/include/utils.hpp, parse_connection_string, and connection_info.hpp. A position
-- of the text is what stands from there on; each test of a loop that can go on for ever costs one of
-- its fuel, and none is the answer of fuel that ran out.
pub mod Quoting
pub mod RoundTrip
pub mod Termination
mod Tests
use new_rojcpp.Prelude.{
  ℕ, zero, suc, ◌^◌, List, [], ◌∷◌, Option, none, some, Bool, true, false, ◌||◌, ◌&&◌, ◌==◌, ltb,
  leb, if◌then◌else◌,
}
use new_rojcpp.Prelude.Decimal.{is_digit, digits_value}
use new_rojcpp.Prelude.Int.{ℤ, pos, negsuc}
use new_rojcpp.Prelude.Cut.{cut}
use new_rojcpp.Prelude.Dict.{lookup, insert, bytes_eq}
use mathlib.Core.List.{reverse}

-- The errors that the texts of the `cppdb_error`s tell apart.
pub data ParseError : Type 0 where
  no_driver invalid_property unterminated_string duplicate_key not_integer : ParseError

pub data Result {ℓ} (A : Type ℓ) : Type ℓ where
  ok : A → Result A
  thrown : ParseError → Result A

abbrev pub Properties : Type 0
Properties = List (List ℕ × List ℕ)

-- ' ', '\t', '\r', '\n' and '\f'
abbrev pub is_blank_char : ℕ → Bool
is_blank_char c = c == 32 || c == 9 || c == 13 || c == 10 || c == 12

unfoldable pub skip_blank : List ℕ → List ℕ
skip_blank [] = []
skip_blank (c ∷ cs) = elim (is_blank_char c) [ true ↦ skip_blank cs | false ↦ c ∷ cs ]

unfoldable pub trim : List ℕ → List ℕ
trim s = reverse (skip_blank (reverse (skip_blank s)))

abbrev pub put_before : ℕ → Option (List ℕ × List ℕ) → Option (List ℕ × List ℕ)
put_before c none = none
put_before c (some (value, rest)) = some (c ∷ value, rest)

-- The loop of a quoted value, from behind its first quote: the value, and what follows it. A text
-- that ends is the unterminated string.
unfoldable pub quoted : List ℕ → Option (List ℕ × List ℕ)
quoted [] = none
quoted (c ∷ []) = elim (c == 39) [ true ↦ some ([], []) | false ↦ none ]
quoted (c ∷ d ∷ ds) = elim (c == 39) [
  | true ↦ elim (d == 39) [ true ↦ put_before 39 (quoted ds) | false ↦ some ([], d ∷ ds) ]
  | false ↦ put_before c (quoted (d ∷ ds))
]

-- A value without quotes: it ends before the semicolon.
unfoldable pub unquoted : List ℕ → List ℕ × List ℕ
unquoted text = elim (cut 59 text) [
  | none ↦ (trim text, [])
  | some (value, rest) ↦ (trim value, 59 ∷ rest)
]

unfoldable pub read_value : List ℕ → Option (List ℕ × List ℕ)
read_value [] = some ([], [])
read_value (c ∷ cs) = elim (c == 39) [ true ↦ quoted cs | false ↦ some (unquoted (c ∷ cs)) ]

-- The loop behind a value: it has no branch for a character that is neither blank nor a semicolon.
unfoldable pub skip_separator : ℕ → List ℕ → Option (List ℕ)
skip_separator zero rest = none
skip_separator (suc fuel) [] = some []
skip_separator (suc fuel) (c ∷ cs) = elim (is_blank_char c) [
  | true ↦ skip_separator fuel cs
  | false ↦ elim (c == 59) [ true ↦ some cs | false ↦ skip_separator fuel (c ∷ cs) ]
]

-- The loop over the properties.
unfoldable pub read_properties : ℕ → Properties → List ℕ → Option (Result Properties)
unfolding lookup
read_properties zero params text = none
read_properties (suc fuel) params [] = some (ok params)
read_properties (suc fuel) params (c ∷ cs) = elim (cut 61 (c ∷ cs)) [
  | none ↦ some (thrown invalid_property)
  | some (name, after) ↦ elim (read_value (skip_blank after)) [
    | none ↦ some (thrown unterminated_string)
    | some (value, rest) ↦ elim (lookup (trim name) params) [
      | some _ ↦ some (thrown duplicate_key)
      | none ↦ elim (skip_separator fuel rest) [
        | none ↦ none
        | some text ↦ read_properties fuel (insert (trim name) value params) text
      ]
    ]
  ]
]

-- `connection_info`
pub record ConnectionInfo : Type 0 where
  pub connection_string : List ℕ
  pub driver : List ℕ
  pub properties : Properties

abbrev pub with_properties : List ℕ → List ℕ → Result Properties → Result ConnectionInfo
with_properties cs driver (ok params) =
    ok (record { connection_string = cs; driver = driver; properties = params })
with_properties cs driver (thrown e) = thrown e

-- The constructor of `connection_info`, which calls `parse_connection_string`.
unfoldable pub parse_connection_string : ℕ → List ℕ → Option (Result ConnectionInfo)
parse_connection_string fuel cs = elim (cut 58 cs) [
  | none ↦ some (thrown no_driver)
  | some (driver, rest) ↦ elim (read_properties fuel [] rest) [
    | none ↦ none
    | some r ↦ some (with_properties cs driver r)
  ]
]

-- `connection_info::has`
unfoldable pub has : ConnectionInfo → List ℕ → Bool
unfolding lookup
has info prop = elim (lookup prop info.properties) [ none ↦ false | some _ ↦ true ]

-- `connection_info::get`
unfoldable pub get : ConnectionInfo → List ℕ → List ℕ → List ℕ
unfolding lookup
get info prop default_value = elim (lookup prop info.properties) [
  | none ↦ default_value
  | some value ↦ value
]

all_digits : List ℕ → Bool
all_digits [] = true
all_digits (c ∷ cs) = is_digit c && all_digits cs

-- `ss >> val` for an `int` in the classic locale, up to the end of the text: blanks, a sign and
-- digits. A number that does not fit sets the fail bit, and a character that is left clears eof.
magnitude : List ℕ → Option ℕ
unfolding all_digits digits_value
magnitude [] = none
magnitude (c ∷ cs) = if all_digits (c ∷ cs) then some (digits_value 0 (c ∷ cs)) else none

positive : Option ℕ → Option ℤ
positive none = none
positive (some n) = if ltb n (2 ^ 31) then some (pos n) else none

negative : Option ℕ → Option ℤ
negative none = none
negative (some zero) = some (pos 0)
negative (some (suc n)) = if ltb n (2 ^ 31) then some (negsuc n) else none

signed : List ℕ → Option ℤ
unfolding magnitude positive negative
signed [] = none
signed (c ∷ cs) = elim (c == 45) [
  | true ↦ negative (magnitude cs)
  | false ↦ elim (c == 43) [
    | true ↦ positive (magnitude cs)
    | false ↦ positive (magnitude (c ∷ cs))
  ]
]

abbrev is_space : ℕ → Bool
is_space c = c == 32 || leb 9 c && leb c 13

skip_space : List ℕ → List ℕ
skip_space [] = []
skip_space (c ∷ cs) = elim (is_space c) [ true ↦ skip_space cs | false ↦ c ∷ cs ]

unfoldable pub read_int : List ℕ → Option ℤ
unfolding signed skip_space
read_int text = signed (skip_space text)

-- `connection_info::get` of a number
unfoldable pub get_number : ConnectionInfo → List ℕ → ℤ → Result ℤ
unfolding lookup
get_number info prop default_value = elim (lookup prop info.properties) [
  | none ↦ ok default_value
  | some value ↦ elim (read_int value) [ none ↦ thrown not_integer | some n ↦ ok n ]
]
