-- ===== src/Json/Text/Elements.antt =====
-- libs/cppjson/include/utils.hpp: a vector written by `To_String` and taken apart by
-- `unpacking_list`.
use new_rojcpp.Prelude.{ℕ, ◌≡◌, List, [], ◌∷◌, ◌++◌, Bool, true, not, ◌||◌, ◌&&◌, ◌==◌}
use new_rojcpp.Json.Text.{State, Unpacker}

-- The loop of `To_String<std::vector<U>>::to` behind its bracket, over the texts of the elements.
abbrev pub elements : List (List ℕ) → List ℕ
elements [] = b']' ∷ []
elements (e ∷ []) = e ++ b']' ∷ []
elements (e ∷ f ∷ es) = e ++ b',' ∷ elements (f ∷ es)

unfoldable pub vector_to_string : List (List ℕ) → List ℕ
vector_to_string es = b'[' ∷ elements es

-- A text without a comma and a closing bracket, that does not begin as a struct or a list does.
abbrev pub is_element_char : ℕ → Bool
is_element_char c = not (c == b',' || c == b']')

abbrev pub is_element_first : ℕ → Bool
is_element_first c = is_element_char c && not (c == b'{' || c == b'[' || c == b' ')

abbrev pub AreElementChars : List ℕ → Type 0
AreElementChars [] = Unit
AreElementChars (c ∷ cs) = (is_element_char c ≡ true) × AreElementChars cs

abbrev pub IsElement : List ℕ → Type 0
IsElement [] = ⊥
IsElement (c ∷ cs) = (is_element_first c ≡ true) × AreElementChars cs

abbrev pub AreElements : List (List ℕ) → Type 0
AreElements [] = Unit
AreElements (e ∷ es) = IsElement e × AreElements es

abbrev at : State → List (List ℕ) → List ℕ → Unpacker
at state vec temp = record {
  state = state;
  vec = vec;
  temp = temp;
  nested_struct = 0;
  nested_iterable = 0;
}
