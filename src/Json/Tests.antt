-- ===== src/Json/Tests.antt =====
-- Texts that are written out, read and taken apart.
use new_rojcpp.Prelude.{ℕ, ◌-◌, ◌^◌, ◌≡◌, refl, List, [], ◌∷◌, ◌++◌, true, some, arith}
use new_rojcpp.Prelude.Decimal.{digits_value}
use new_rojcpp.Prelude.Dict.{lookup, insert}
use new_rojcpp.Prelude.{bytes_beq}
use new_rojcpp.Prelude.Text.{codes, all_are-AllAre}
use new_rojcpp.Json.Text.{unescape_from, unpacking_list, unpack_from, unpack_visit, unpack_step}
use new_rojcpp.Json.Parse.{
  Config, parse, parsed, expecting, undefined, serialized_to_string, remove_prefix, remove_suffix,
  delimited, back, run, visit, step,
}
use new_rojcpp.Json.Parse.Reading.{is_key_char, iterable}
use new_rojcpp.Json.Parse.RoundTrip.{object_text, parse-serialized_to_string}
use new_rojcpp.Json.Parse.Lost.{parse-lost}
use new_rojcpp.Json.Object.{read_int, read_string}
use new_rojcpp.Json.Values.{quoted, int_text, quoted-IsValue, int_text-IsValue}

abbrev spaced : List ℕ
spaced = codes " { \"a\" : [1, 2] ,\"b\":{ \"c\":\"d\" } } "

spaces_skipped :
    parse spaced ≡ parsed ((codes "a", codes "[1, 2]") ∷ (codes "b", codes "{ \"c\":\"d\" }") ∷ [])
unfolding parse remove_prefix remove_suffix delimited back run visit step insert bytes_beq
spaces_skipped = refl

no_brace : parse (codes " x}") ≡ expecting 123
unfolding parse remove_prefix remove_suffix delimited back run visit step
no_brace = refl

only_blanks : parse (codes "  ") ≡ undefined
unfolding parse remove_prefix remove_suffix delimited back run visit step
only_blanks = refl

-- The quotes in a string are not looked for where a list is taken apart.
comma_in_string : unpacking_list (codes "[\"a,b\"]") ≡ codes "\"a" ∷ codes "b\"" ∷ []
unfolding unpacking_list unpack_from unpack_visit unpack_step
comma_in_string = refl

numbers : read_int (codes "-12") ≡ some (2 ^ 32 - 12)
unfolding read_int digits_value
numbers = refl

too_large : read_int (codes "99999999999") ≡ some (2 ^ 31 - 1)
unfolding read_int digits_value
too_large = refl

escapes : read_string (codes "\"a\\n\\u\"") ≡ some (97 ∷ 10 ∷ 92 ∷ 117 ∷ [])
unfolding read_string unescape_from
escapes = refl

abbrev first_text : List ℕ
first_text = codes "say \"hi\""

abbrev config : Config
config =
    (codes "text", quoted first_text)
    ∷ (codes "n", int_text 7)
    ∷ (codes "list", codes "[[1],2]")
    ∷ []

parse-serialized_to_string_example : parse (serialized_to_string true config) ≡ parsed config
unfolding lookup bytes_beq
parse-serialized_to_string_example =
    parse-serialized_to_string true (codes "text") (quoted first_text)
      ((codes "n", int_text 7) ∷ (codes "list", codes "[[1],2]") ∷ [])
      (
        all_are-AllAre is_key_char (codes "text") refl,
        quoted-IsValue first_text (omega arith),
        (
          all_are-AllAre is_key_char (codes "n") refl,
          int_text-IsValue 7,
          (
            all_are-AllAre is_key_char (codes "list") refl,
            iterable (codes "[1],2]") (refl, (refl, (refl, (refl, (refl, (refl, refl)))))),
            tt,
          ),
        ),
      )
      (refl, (refl, (refl, tt)))

parse-lost_example :
    parse (object_text [] ((codes "code", quoted (codes "#define A" ++ 92 ∷ [])) ∷ [])) ≡ parsed []
parse-lost_example =
    parse-lost (codes "code") (codes "#define A") (all_are-AllAre is_key_char (codes "code") refl)

abbrev two_elements : List (List ℕ)
two_elements = codes "12" ∷ codes "\"a\"" ∷ []
