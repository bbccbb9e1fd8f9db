-- ===== src/Buffer.antt =====
-- include/tools/buffers.h: the growing byte buffer, and the two functions that fill it,
-- response::append_buff (src/http_responese.cpp) and request::feed_read_datas
-- (src/http_request.cpp). Sizes are `size_t` values: they wrap at 2 ^ 64.
pub mod Growth
pub mod Append
pub mod Feed
mod Tests
use new_rojcpp.Prelude.{
  ℕ, zero, suc, ◌+◌, ◌-◌, ◌*◌, ◌/◌, ◌%◌, ◌^◌, ◌≡◌, Bool, true, false, ◌||◌, List, [], ◌++◌, Option,
  none, some, ltb, leb, ◌==◌, if◌then◌else◌, length, take, drop,
}

abbrev pub size_mod : ℕ
size_mod = 2 ^ 64

-- The polymorphic allocator: what it hands out is as long as asked, with unknown contents.
pub record Allocator : Type 0 where
  pub allocate : ℕ → List ℕ
  pub length-allocate : (n : ℕ) → length (allocate n) ≡ n

-- `raw` is `m_raw_mem`, `none` for the null pointer.
pub record Buffer : Type 0 where
  pub raw : Option (List ℕ)
  pub tot : ℕ
  pub used : ℕ

-- memcpy of `src` to `dst + at`; a write behind the end is undefined, here `none`.
pub memcpy : List ℕ → ℕ → List ℕ → Option (List ℕ)
memcpy dst at src =
    if leb (at + length src) (length dst)
    then some (take at dst ++ (src ++ drop (at + length src) dst))
    else none

unfoldable pub empty : Buffer → Bool
empty b = elim b.raw [ none ↦ true | some _ ↦ b.tot == 0 ]

pub left_size : Buffer → ℕ
left_size b = let left = (b.tot + size_mod - b.used) % size_mod in if ltb 0 left then left else 0

pub update_used_size : ℕ → Buffer → Buffer
update_used_size size b = record b { used = (b.used + size) % size_mod }

unfoldable pub clear : Buffer → Buffer
clear b = record b { used = 0 }

module _ (alloc : Allocator) where
  pub expand_size : ℕ → Buffer → Option Buffer
  expand_size size b =
      let tmp = alloc.allocate ((b.tot + size) % size_mod) in
      elim b.raw [
        | none ↦ some (record b { raw = some tmp; tot = size })
        | some old ↦ elim (memcpy tmp 0 (take b.tot old)) [
          | none ↦ none
          | some mem ↦ some (record b { raw = some mem; tot = (b.tot + size) % size_mod })
        ]
      ]

  pub expand_twice_size : Buffer → Option Buffer
  expand_twice_size b = expand_size (if b.tot == 0 then 1 else (b.tot * 2) % size_mod) b

  -- memcpy to `write_data()`, then `update_used_sized`.
  pub write : List ℕ → Buffer → Option Buffer
  write src b = elim b.raw [
    | none ↦ if length src == 0 then some b else none
    | some mem ↦ elim (memcpy mem b.used src) [
      | none ↦ none
      | some mem' ↦ some (update_used_size (length src) (record b { raw = some mem' }))
    ]
  ]

  -- `while (m_buff.left_size() < size) m_buff.expand_twice_size();`
  pub grow : ℕ → ℕ → Buffer → Option Buffer
  grow zero size b = none
  grow (suc fuel) size b = elim (ltb (left_size b) size) [
    | false ↦ some b
    | true ↦ elim (expand_twice_size b) [ none ↦ none | some b' ↦ grow fuel size b' ]
  ]

  -- `none` is a write outside the memory, or no end of the loop within `size + 1` rounds.
  pub append_buff : List ℕ → Buffer → Option Buffer
  append_buff src b = elim (if empty b then expand_size (32 * 1024) b else some b) [
    | none ↦ none
    | some b1 ↦ elim (grow (suc (length src)) (length src) b1) [
      | none ↦ none
      | some b2 ↦ write src b2
    ]
  ]

  -- `(n + 8 - 1) & ~(8 - 1)`: up to a multiple of eight.
  pub feed_read_datas : List ℕ → Buffer → Option Buffer
  feed_read_datas src b =
      if ltb (left_size b) (length src)
      then elim (expand_size ((b.tot + 7) % size_mod / 8 * 8) b) [
        | none ↦ none
        | some b' ↦ write src b'
      ]
      else write src b
