-- ===== src/Judge/Wire.antt =====
-- libs/judgercpp/judge_server/src/MessageBuffer.hpp: the byte format of the messages. An `int` or
-- `uint32_t` is its bit pattern, a number below 2 ^ 32. Positions are `int`s: one from
-- 2 ^ 31 on overflows, which is undefined in the source, as a read behind the text's end is; both are
-- `none` here.
pub mod Reading
use new_rojcpp.Prelude.{
  ℕ, ◌+◌, ◌*◌, ◌/◌, ◌%◌, ◌^◌, List, [], ◌∷◌, ◌++◌, Option, none, some, leb, ltb, if◌then◌else◌,
  length, take, drop,
}

abbrev pub word_mod : ℕ
word_mod = 2 ^ 32

-- `push_back(uint32_t)`: the bytes in network order, which is what `htonl` gives.
unfoldable pub push_back : ℕ → List ℕ → List ℕ
push_back val buff =
    buff ++ (val / 2 ^ 24 % 256) ∷ (val / 2 ^ 16 % 256) ∷ (val / 2 ^ 8 % 256) ∷ (val % 256) ∷ []

-- `push_back(std::string_view)`
unfoldable pub push_back_text : List ℕ → List ℕ → List ℕ
push_back_text str buff = buff ++ str

-- `appendMessge`: the length, cut to 32 bits, and the text.
unfoldable pub append_message : List ℕ → List ℕ → List ℕ
append_message msg buff = push_back_text msg (push_back (length msg % word_mod) buff)

-- A reader takes the text and the position `cur`, and returns a value and the new position.
abbrev pub Reader : Type 0 → Type 0
Reader A = List ℕ → ℕ → Option (A × ℕ)

abbrev pub pure : {A : Type 0} → A → Reader A
pure a str cur = some (a, cur)

infixl 5 ◌>>=◌
abbrev pub ◌>>=◌ : {A B : Type 0} → Reader A → (A → Reader B) → Reader B
◌>>=◌ m f str cur = elim (m str cur) [ none ↦ none | some (a, cur') ↦ f a str cur' ]

-- The four bytes at a position, as `ntohl` reads them.
word_at : List ℕ → Option ℕ
word_at (a ∷ b ∷ c ∷ d ∷ _) = some (((a * 256 + b) * 256 + c) * 256 + d)
word_at _ = none

-- `cur` as an `int`
abbrev pub moved : {A : Type 0} → A → ℕ → Option (A × ℕ)
moved a cur = if ltb cur (2 ^ 31) then some (a, cur) else none

-- `getInt`
unfoldable pub get_int : List ℕ → ℕ → Option ℕ
unfolding word_at
get_int str cur = word_at (drop cur str)

-- `dumpsMessageFromStr<int>`
unfoldable pub read_int : Reader ℕ
read_int str cur = elim (get_int str cur) [ none ↦ none | some val ↦ moved val (cur + 4) ]

-- `dumpsMessageFromStr<std::string>`
unfoldable pub read_text : Reader (List ℕ)
read_text str cur = elim (get_int str cur) [
  | none ↦ none
  | some size ↦
      if leb (cur + 4 + size) (length str)
      then moved (take size (drop (cur + 4) str)) (cur + 4 + size)
      else none
]
