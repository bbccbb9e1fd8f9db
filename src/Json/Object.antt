-- ===== src/Json/Object.antt =====
-- libs/cppjson/include/serializable.hpp: `Serializable::loads`, from a text to an object of a class
-- whose fields are strings and `int`s, and the readers of both (libs/cppjson/include/utils.hpp). An
-- object is the dictionary of its fields, an `int` its bit pattern.
pub mod Loading
use new_rojcpp.Prelude.{
  ℕ, ◌-◌, ◌%◌, ◌^◌, List, [], ◌∷◌, ◌++◌, Option, none, some, Bool, true, false, ◌&&◌, ◌||◌, ◌==◌,
  ltb, leb, if◌then◌else◌, bytes_beq,
}
use new_rojcpp.Prelude.Decimal.{digits_value}
use new_rojcpp.Prelude.Dict.{lookup, insert, bytes_eq}
use new_rojcpp.Prelude.Text.{codes}
use new_rojcpp.Json.Text.{unescape_string}
use new_rojcpp.Json.Parse.{Config, Parsed, parsed, expecting, undefined, parse}

pub data FieldType : Type 0 where
  is_string is_int : FieldType

pub data Field : Type 0 where
  text : List ℕ → Field
  number : ℕ → Field

abbrev pub Fields : Type 0
Fields = List (List ℕ × FieldType)

abbrev pub Object : Type 0
Object = List (List ℕ × Field)

abbrev pub without_front : List ℕ → List ℕ
without_front [] = []
without_front (c ∷ cs) = if c == 34 then cs else c ∷ cs

-- A text that is not empty, without a quote at its end.
abbrev pub without_back : ℕ → List ℕ → List ℕ
without_back c [] = if c == 34 then [] else c ∷ []
without_back c (d ∷ ds) = c ∷ without_back d ds

-- The reader of a string. The first and the last character are those of a text that is not empty;
-- `none` where there is none.
unfoldable pub read_string : List ℕ → Option (List ℕ)
read_string [] = none
read_string (c ∷ cs) = elim (without_front (c ∷ cs)) [
  | [] ↦ none
  | (d ∷ ds) ↦ some (unescape_string (without_back d ds))
]

-- What `>>` makes of a number that does not fit.
abbrev pub positive : ℕ → ℕ
positive n = if ltb n (2 ^ 31) then n else 2 ^ 31 - 1

abbrev pub negative : ℕ → ℕ
negative n = if leb n (2 ^ 31) then (2 ^ 32 - n) % 2 ^ 32 else 2 ^ 31

abbrev pub is_space : ℕ → Bool
is_space c = leb 9 c && leb c 13 || c == b' '

-- The reader of an `int`: 0 where there is no number; `none` where there are only blanks, and the
-- number is not set.
unfoldable pub read_int : List ℕ → Option ℕ
read_int [] = none
read_int (c ∷ cs) = elim (is_space c) [
  | true ↦ read_int cs
  | false ↦
      if c == b'-'
      then some (negative (digits_value 0 cs))
      else if c == b'+'
      then some (positive (digits_value 0 cs))
      else some (positive (digits_value 0 (c ∷ cs)))
]

-- `string_to_value`, for the type of a field.
unfoldable pub string_to_value : FieldType → List ℕ → Option Field
unfolding read_string read_int
string_to_value is_string value = elim (read_string value) [ none ↦ none | some s ↦ some (text s) ]
string_to_value is_int value = elim (read_int value) [ none ↦ none | some n ↦ some (number n) ]

-- `config_to_object`; `none` is an exception, for a field that the class does not have.
unfoldable pub config_to_object : Fields → Config → Object → Option Object
unfolding string_to_value
config_to_object fields [] o = some o
config_to_object fields ((field_name, value) ∷ m) o =
    elim (bytes_beq field_name (codes "class_name")) [
      | true ↦ config_to_object fields m o
      | false ↦ elim (lookup field_name fields) [
        | none ↦ none
        | some str_type ↦ elim (string_to_value str_type value) [
          | none ↦ none
          | some v ↦ config_to_object fields m (insert field_name v o)
        ]
      ]
    ]

-- `loads`, with the object as its constructor leaves it, and the order in which the map of the config
-- is walked. An exception is caught, and then the function ends without a value: that is `none`.
unfoldable pub loads : (Config → Config) → Fields → Object → List ℕ → Option Object
unfolding config_to_object
loads walk fields obj json = elim (parse json) [
  | parsed m ↦ config_to_object fields (walk m) obj
  | expecting _ ↦ none
  | undefined ↦ none
]
