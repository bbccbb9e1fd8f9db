-- ===== src/Log/Stream.antt =====
-- libs/logger/logStream.hpp: what the line of a log is put together from. The text is what stands in
-- the buffer of 4096 bytes.
pub mod Written
pub mod Room
mod Tests
use new_rojcpp.Prelude.{
  ℕ, zero, suc, ◌+◌, ◌-◌, List, [], ◌∷◌, ◌++◌, map, Bool, true, false, leb, length, if◌then◌else◌,
}
use new_rojcpp.Prelude.Decimal.{digits}
use new_rojcpp.Prelude.Int.{ℤ, pos, negsuc}
use new_rojcpp.Prelude.Text.{codes}
use new_rojcpp.Log.Async.{buffer_append}
use mathlib.Core.List.{reverse}

abbrev pub k_small_buffer : ℕ
k_small_buffer = 4096

abbrev pub k_max_numeric_size : ℕ
k_max_numeric_size = 48

abbrev char_at : List ℕ → ℕ → ℕ
char_at [] i = 0
char_at (c ∷ cs) zero = c
char_at (c ∷ cs) (suc i) = char_at cs i

-- The table has the digits on both sides of its zero, for the remainders of negative numbers.
abbrev pub digit_table : List ℕ
digit_table = codes "9876543210123456789"

-- `zero[idx]`, and `zero[-idx]`
abbrev pub zero_up : ℕ → ℕ
zero_up idx = char_at digit_table (9 + idx)

abbrev pub zero_down : ℕ → ℕ
zero_down idx = char_at digit_table (9 - idx)

-- The characters of the loop and the sign, before `std::reverse`. The remainders of a negative number
-- are those of its absolute value with the other sign.
abbrev pub backwards : ℤ → List ℕ
backwards (pos n) = map zero_up (digits n)
backwards (negsuc n) = map zero_down (digits (suc n)) ++ 45 ∷ []

-- `formatInter`
unfoldable pub format_inter : ℤ → List ℕ → List ℕ
format_inter num text =
    if leb k_max_numeric_size (k_small_buffer - length text)
    then text ++ reverse (backwards num)
    else text

-- What can be written: an integer, a character, a text, and the null pointer.
pub data Piece : Type 0 where
  integer : ℤ → Piece
  character : ℕ → Piece
  string : List ℕ → Piece
  null : Piece

-- The operators `<<`, but for those of numbers with a fraction.
abbrev pub write_piece : Piece → List ℕ → List ℕ
write_piece (integer num) text = format_inter num text
write_piece (character c) text = buffer_append k_small_buffer (c ∷ []) text
write_piece (string str) text = buffer_append k_small_buffer str text
write_piece null text = buffer_append k_small_buffer (codes "(null)") text

abbrev pub write_all : List Piece → List ℕ → List ℕ
write_all [] text = text
write_all (p ∷ ps) text = write_all ps (write_piece p text)
