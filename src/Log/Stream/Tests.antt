-- ===== src/Log/Stream/Tests.antt =====
-- A line that is put together from parts, the least 64-bit integer among them.
use new_rojcpp.Prelude.{◌+◌, ◌-◌, ◌^◌, ◌≡◌, ◌≤◌, refl, List, [], ◌∷◌, arith, length}
use new_rojcpp.Prelude.Int.{pos, negsuc}
use new_rojcpp.Prelude.Decimal.{digits}
use new_rojcpp.Prelude.Text.{codes}
use new_rojcpp.Log.Async.{buffer_append}
use new_rojcpp.Log.Stream.{
  Piece, integer, character, string, null, write_all, format_inter, k_small_buffer,
}
use new_rojcpp.Log.Stream.Written.{all_printed, write_all-printed}
use new_rojcpp.Log.Stream.Room.{write_all-inside}

abbrev line : List Piece
line =
    string (codes "at ")
    ∷ integer (negsuc (2 ^ 63 - 1))
    ∷ character 32
    ∷ integer (pos 0)
    ∷ null
    ∷ []

line_text : write_all line [] ≡ codes "at -9223372036854775808 0(null)"
unfolding format_inter buffer_append digits
line_text = refl

line_short : length (all_printed line) + 48 ≤ k_small_buffer
unfolding digits
line_short = omega arith

write_all-printed_example : write_all line [] ≡ all_printed line
write_all-printed_example = write_all-printed line line_short

write_all-inside_example : length (write_all line []) ≤ k_small_buffer
write_all-inside_example =
    write_all-inside line [] (tt, (omega arith, (tt, (omega arith, (tt, tt))))) (omega arith)
