-- ===== src/Buffer/Feed.antt =====
-- request::feed_read_datas (src/http_request.cpp): it grows the buffer once, by the old size up to
-- a multiple of eight, whatever the number of bytes that must fit.
use new_rojcpp.Prelude.{
  ℕ, ◌+◌, ◌-◌, ◌*◌, ◌/◌, ◌^◌, ◌%◌, ◌≤◌, ◌<◌, ◌≡◌, ap, ◌∙◌, List, ◌++◌, none, arith, length, ltb,
  Bool-cases, Option-cases, inl, inr,
}
use new_rojcpp.Buffer.{Allocator, Buffer, size_mod, left_size, write, feed_read_datas}
use new_rojcpp.Buffer.Growth.{
  bytes, IsValid, left_size_of_IsValid, memcpy_overflow, expand_size-Grown,
}
use new_rojcpp.Buffer.Append.{Appended, write-Appended}

-- The memory that `feed_read_datas` has free once it has grown.
abbrev pub room_of_feed : Buffer → ℕ
room_of_feed b = b.tot - b.used + (b.tot + 7) / 8 * 8

module _ (alloc : Allocator) where
  write_overflow :
      (b : Buffer) (src : List ℕ)
      → IsValid b
      → b.tot < b.used + length src
      → write alloc src b ≡ none
  unfolding write
  write_overflow b src v h = elim (Option-cases b.raw) [
    | inl e ↦ rw (e, write) (let e' = ap (λ r. length (bytes r)) e in ground arith)
    | inr (mem, e) ↦
        rw (e, write, memcpy_overflow mem b.used src (omega (arith, ap (λ r. length (bytes r)) e)))
  ]

  -- On a valid buffer of at least one byte and less than 2 ^ 62: bytes that are no more than the
  -- memory that is free after one growth are appended, and `feed_read_datas` returns.
  pub feed_read_datas-Appended :
      (b : Buffer) (src : List ℕ)
      → IsValid b
      → 0 < b.tot
      → b.tot < 2 ^ 62
      → length src ≤ room_of_feed b
      → Appended b src (feed_read_datas alloc src b)
  unfolding feed_read_datas
  feed_read_datas-Appended b src v pos k h = elim (Bool-cases (ltb (left_size b) (length src))) [
    | inl e ↦
        let g = expand_size-Grown alloc b ((b.tot + 7) % size_mod / 8 * 8) v (omega arith) in
        let (w, _) =
          write-Appended alloc g.after src g.valid
            (omega (arith, g.used_after, g.tot_after, g.valid.within))
            (omega (arith, g.tot_after)) in
        record {
          after = w.after;
          returned = rw (e, feed_read_datas, g.returned) w.returned;
          valid = w.valid;
          text = w.text ∙ ap (λ t. t ++ src) g.same;
          used_after = omega (arith, w.used_after, g.used_after);
        }
    | inr e ↦
        let (w, _) = write-Appended alloc b src v (ground (arith, left_size_of_IsValid b v)) pos in
        record {
          after = w.after;
          returned = rw (e, feed_read_datas) w.returned;
          valid = w.valid;
          text = w.text;
          used_after = w.used_after;
        }
  ]

  -- On a valid buffer of less than 2 ^ 62 bytes: when the bytes are more than the memory that is
  -- free after one growth, the copy runs over the end of the memory.
  pub feed_read_datas_overflow :
      (b : Buffer) (src : List ℕ)
      → IsValid b
      → b.tot < 2 ^ 62
      → room_of_feed b < length src
      → feed_read_datas alloc src b ≡ none
  unfolding feed_read_datas
  feed_read_datas_overflow b src v k h = elim (Bool-cases (ltb (left_size b) (length src))) [
    | inl e ↦
        let g = expand_size-Grown alloc b ((b.tot + 7) % size_mod / 8 * 8) v (omega arith) in
        rw (e, feed_read_datas, g.returned)
          (write_overflow g.after src g.valid (omega (arith, g.used_after, g.tot_after)))
    | inr e ↦ absurd (ground (arith, left_size_of_IsValid b v))
  ]
