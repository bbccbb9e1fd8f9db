-- ===== src/Json/Parse.antt =====
-- libs/cppjson/include/serializable.hpp: `Serializable::parse`, from a text to a config, and
-- libs/cppjson/include/config.hpp: back to a text. A config is the list of its entries in the order
-- in which its map is walked.
pub mod Reading
pub mod RoundTrip
pub mod Lost
use new_rojcpp.Prelude.{
  ℕ, suc, ◌-◌, List, [], ◌∷◌, ◌++◌, Option, none, some, Bool, true, false, not, ◌||◌, ◌&&◌, ◌==◌,
  if◌then◌else◌,
}
use new_rojcpp.Prelude.Dict.{insert, bytes_eq}
use new_rojcpp.Json.Text.{is_blank_char, nested}

abbrev pub Config : Type 0
Config = List (List ℕ × List ℕ)

pub data State : Type 0 where
  init parse_value parse_struct parse_fundamental parse_iterable parse_string end_parse : State

pub record Parser : Type 0 where
  pub state : State
  pub conf : Config
  pub key : List ℕ
  pub value : List ℕ
  pub nested_struct_layer : ℕ
  pub nested_iterable_layer : ℕ

-- One round at the character `it` behind `prev`, and whether the index steps back to visit it again.
-- In the state `parse_string` the index is not 0.
unfoldable pub step : ℕ → ℕ → Parser → Bool × Parser
step prev it p = elim p.state [
  | State.init ↦
      if it == b':'
      then (false, record p { state = State.parse_value })
      else if not (is_blank_char it) && not (it == b',' || it == b'{' || it == 34)
      then (false, record p { key = p.key ++ it ∷ [] })
      else (false, p)
  | State.parse_value ↦
      if is_blank_char it
      then (false, p)
      else if it == b'{'
      then (
        false,
        record p {
          value = p.value ++ it ∷ [];
          nested_struct_layer = suc p.nested_struct_layer;
          state = State.parse_struct;
        },
      )
      else if it == b'['
      then (
        false,
        record p {
          value = p.value ++ it ∷ [];
          nested_iterable_layer = suc p.nested_iterable_layer;
          state = State.parse_iterable;
        },
      )
      else if it == 34
      then (false, record p { value = p.value ++ it ∷ []; state = State.parse_string })
      else (false, record p { value = p.value ++ it ∷ []; state = State.parse_fundamental })
  | State.parse_string ↦
      if it == 34 && not (prev == 92)
      then (true, record p { value = p.value ++ it ∷ []; state = State.end_parse })
      else (false, record p { value = p.value ++ it ∷ [] })
  | State.parse_fundamental ↦
      if it == b',' || it == b'}' || it == 34 || is_blank_char it
      then (
        true,
        record p {
          value = if it == 34 then p.value ++ it ∷ [] else p.value;
          state = State.end_parse;
        },
      )
      else (false, record p { value = p.value ++ it ∷ [] })
  | State.parse_iterable ↦
      let layer = nested b'[' b']' it p.nested_iterable_layer in
      if (it == b'[' || it == b']') && layer == 0
      then (
        true,
        record p {
          nested_iterable_layer = layer;
          value = p.value ++ it ∷ [];
          state = State.end_parse;
        },
      )
      else (false, record p { nested_iterable_layer = layer; value = p.value ++ it ∷ [] })
  | State.parse_struct ↦
      let layer = nested b'{' b'}' it p.nested_struct_layer in
      if (it == b'{' || it == b'}') && layer == 0
      then (
        true,
        record p {
          nested_struct_layer = layer;
          value = p.value ++ it ∷ [];
          state = State.end_parse;
        },
      )
      else (false, record p { nested_struct_layer = layer; value = p.value ++ it ∷ [] })
  | State.end_parse ↦ (
    false,
    record p { state = State.init; conf = insert p.key p.value p.conf; key = []; value = [] },
  )
]

-- A character that is visited again is not visited a third time, as `end_parse` goes on.
unfoldable pub visit : ℕ → ℕ → Parser → Parser
unfolding step
visit prev it p = let (again, on) = step prev it p in if again then (step prev it on).1 else on

unfoldable pub run : ℕ → List ℕ → Parser → Parser
unfolding visit
run prev [] p = p
run prev (it ∷ json) p = run it json (visit prev it p)

unfoldable pub remove_prefix : List ℕ → List ℕ
remove_prefix [] = []
remove_prefix (c ∷ cs) = elim (is_blank_char c) [ true ↦ remove_prefix cs | false ↦ c ∷ cs ]

unfoldable pub remove_suffix : List ℕ → List ℕ
remove_suffix [] = []
remove_suffix (c ∷ cs) = elim (remove_suffix cs) [
  | [] ↦ if is_blank_char c then [] else c ∷ []
  | (d ∷ ds) ↦ c ∷ d ∷ ds
]

-- The last character of a text that is not empty.
unfoldable pub back : ℕ → List ℕ → ℕ
back c [] = c
back c (d ∷ ds) = back d ds

abbrev pub new_parser : Parser
new_parser = record {
  state = State.init;
  conf = [];
  key = [];
  value = [];
  nested_struct_layer = 0;
  nested_iterable_layer = 0;
}

-- `undefined` is the use of the first character of an empty text.
pub data Parsed : Type 0 where
  parsed : Config → Parsed
  expecting : ℕ → Parsed
  undefined : Parsed

unfoldable pub delimited : List ℕ → Parsed
unfolding run back
delimited [] = undefined
delimited (c ∷ cs) =
    if not (c == b'{')
    then expecting b'{'
    else if not (back c cs == b'}')
    then expecting b'}'
    else parsed (run 0 (c ∷ cs) new_parser).conf

unfoldable pub parse : List ℕ → Parsed
unfolding remove_prefix remove_suffix delimited
parse json = delimited (remove_suffix (remove_prefix json))

-- The loop of `serialized_to_string`: all entries but the last one have a comma.
unfoldable pub entries : ℕ → Config → List ℕ
entries end [] = []
entries end ((k, v) ∷ []) = 34 ∷ (k ++ 34 ∷ b':' ∷ (v ++ end ∷ []))
entries end ((k, v) ∷ e ∷ m) = 34 ∷ (k ++ 34 ∷ b':' ∷ (v ++ b',' ∷ end ∷ entries end (e ∷ m)))

-- A config with an entry; for one without the source moves an iterator past the end.
unfoldable pub serialized_to_string : Bool → Config → List ℕ
unfolding entries
serialized_to_string first_nested_layer m =
    let end : ℕ = if first_nested_layer then 10 else b' ' in
    b'{' ∷ end ∷ (entries end m ++ b'}' ∷ end ∷ [])
