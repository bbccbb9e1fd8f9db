-- ===== src/Json/Text.antt =====
-- libs/cppjson/include/utils.hpp: blanks, escapes and the elements of a list.
pub mod Elements
use new_rojcpp.Prelude.{
  ℕ, suc, ◌-◌, List, [], ◌∷◌, ◌++◌, Bool, true, false, not, ◌||◌, ◌&&◌, ◌==◌, if◌then◌else◌,
}

-- `isBlankChar`
abbrev pub is_blank_char : ℕ → Bool
is_blank_char c = c == 9 || c == 10 || c == 13 || c == b' '

-- What stands for the character behind a backslash.
abbrev pub unescaped : ℕ → List ℕ
unescaped c =
    if c == b'n'
    then 10 ∷ []
    else if c == b'r'
    then 13 ∷ []
    else if c == b't'
    then 9 ∷ []
    else if c == 34
    then 34 ∷ []
    else if c == 39
    then 39 ∷ []
    else if c == 92
    then 92 ∷ []
    else 92 ∷ c ∷ []

-- The loop of `unescape_string`, with its flag.
unfoldable pub unescape_from : Bool → List ℕ → List ℕ
unescape_from escape [] = []
unescape_from true (c ∷ cs) = unescaped c ++ unescape_from false cs
unescape_from false (c ∷ cs) = elim (c == 92) [
  | true ↦ unescape_from true cs
  | false ↦ c ∷ unescape_from false cs
]

abbrev pub unescape_string : List ℕ → List ℕ
unescape_string str = unescape_from false str

-- The states of `unpacking_list`.
pub data State : Type 0 where
  init parse_fundamental parse_string parse_struct parse_iterable end_parse : State

pub record Unpacker : Type 0 where
  pub state : State
  pub vec : List (List ℕ)
  pub temp : List ℕ
  pub nested_struct : ℕ
  pub nested_iterable : ℕ

-- One more or one less level.
abbrev pub nested : ℕ → ℕ → ℕ → ℕ → ℕ
nested opens closes c layer =
    if c == closes then layer - 1 else if c == opens then suc layer else layer

-- One round at the character `it` behind `prev`, and whether the index steps back to visit it again.
unfoldable pub unpack_step : ℕ → ℕ → Unpacker → Bool × Unpacker
unpack_step prev it u = elim u.state [
  | State.init ↦
      if it == b'{'
      then (
        false,
        record u {
          state = State.parse_struct;
          nested_struct = suc u.nested_struct;
          temp = u.temp ++ it ∷ [];
        },
      )
      else if it == b'['
      then (
        false,
        record u {
          state = State.parse_iterable;
          nested_iterable = suc u.nested_iterable;
          temp = u.temp ++ it ∷ [];
        },
      )
      else if not (it == b',') && not (it == b' ')
      then (false, record u { state = State.parse_fundamental; temp = u.temp ++ it ∷ [] })
      else if it == 34
      then (false, record u { state = State.parse_string; temp = u.temp ++ it ∷ [] })
      else (false, u)
  | State.parse_string ↦
      if it == 34 && not (prev == 92)
      then (true, record u { state = State.end_parse; temp = u.temp ++ it ∷ [] })
      else (false, record u { temp = u.temp ++ it ∷ [] })
  | State.parse_struct ↦
      let layer = nested b'{' b'}' it u.nested_struct in
      if layer == 0
      then (
        true,
        record u { state = State.end_parse; nested_struct = layer; temp = u.temp ++ it ∷ [] },
      )
      else (false, record u { nested_struct = layer; temp = u.temp ++ it ∷ [] })
  | State.parse_iterable ↦
      let layer = nested b'[' b']' it u.nested_iterable in
      if layer == 0
      then (
        true,
        record u { state = State.end_parse; nested_iterable = layer; temp = u.temp ++ it ∷ [] },
      )
      else (false, record u { nested_iterable = layer; temp = u.temp ++ it ∷ [] })
  | State.parse_fundamental ↦
      if it == b',' || it == b']'
      then (true, record u { state = State.end_parse })
      else (false, record u { temp = u.temp ++ it ∷ [] })
  | State.end_parse ↦
      (false, record u { state = State.init; vec = u.vec ++ u.temp ∷ []; temp = [] })
]

-- A character that is visited again is not visited a third time, as `end_parse` goes on.
unfoldable pub unpack_visit : ℕ → ℕ → Unpacker → Unpacker
unfolding unpack_step
unpack_visit prev it u =
    let (again, on) = unpack_step prev it u in if again then (unpack_step prev it on).1 else on

unfoldable pub unpack_from : ℕ → List ℕ → Unpacker → Unpacker
unfolding unpack_visit
unpack_from prev [] u = u
unpack_from prev (it ∷ cs) u = unpack_from it cs (unpack_visit prev it u)

abbrev pub new_unpacker : Unpacker
new_unpacker = record {
  state = State.init;
  vec = [];
  temp = [];
  nested_struct = 0;
  nested_iterable = 0;
}

-- The first character is skipped.
unfoldable pub unpacking_list : List ℕ → List (List ℕ)
unfolding unpack_from
unpacking_list [] = []
unpacking_list (c ∷ cs) = (unpack_from c cs new_unpacker).vec
