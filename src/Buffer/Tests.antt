-- ===== src/Buffer/Tests.antt =====
-- Runs and instances of the theorems on the buffer.
use new_rojcpp.Prelude.{ℕ, ◌≡◌, refl, List, [], ◌∷◌, none, some, arith, replicate, length-replicate}
use new_rojcpp.Buffer.{
  Allocator, Buffer, append_buff, feed_read_datas, empty, grow, left_size, expand_twice_size,
  expand_size, memcpy, write, update_used_size,
}
use new_rojcpp.Buffer.Growth.{IsValid}
use new_rojcpp.Buffer.Append.{Appended, append_buff-Appended}
use new_rojcpp.Buffer.Feed.{feed_read_datas_overflow}

-- An allocator that hands out zeros.
abbrev zeros : Allocator
zeros = record { allocate = λ n. replicate n 0; length-allocate = λ n. length-replicate n 0 }

abbrev small : Buffer
small = record { raw = some (7 ∷ 8 ∷ 0 ∷ []); tot = 3; used = 2 }

small-IsValid : IsValid small
small-IsValid = record { sized = refl; within = omega arith; bounded = omega arith }

grows :
    append_buff zeros (1 ∷ 2 ∷ 3 ∷ []) small
    ≡ some (record { raw = some (7 ∷ 8 ∷ 1 ∷ 2 ∷ 3 ∷ 0 ∷ 0 ∷ 0 ∷ 0 ∷ []); tot = 9; used = 5 })
unfolding append_buff empty grow left_size expand_twice_size expand_size memcpy write
    update_used_size
grows = refl

append_buff-Appended_example :
    Appended small (1 ∷ 2 ∷ 3 ∷ []) (append_buff zeros (1 ∷ 2 ∷ 3 ∷ []) small)
append_buff-Appended_example =
    append_buff-Appended zeros small (1 ∷ 2 ∷ 3 ∷ []) small-IsValid (omega arith) (omega arith)

abbrev ten : List ℕ
ten = replicate 10 1

feed_read_datas_overflow_example : feed_read_datas zeros ten small ≡ none
feed_read_datas_overflow_example =
    feed_read_datas_overflow zeros small ten small-IsValid (omega arith) (omega arith)
