-- ===== src/Log/Async.antt =====
-- libs/logger/AsyncLogger.hpp, with the buffer of libs/logger/logStream.hpp: threads append lines
-- to buffers, which one thread writes to the file. `append` and the locked part of the thread's loop
-- are one step each; the part that writes is another, so that lines may be appended in between.
pub mod Lines
mod Tests
use new_rojcpp.Prelude.{
  ℕ, ◌+◌, ◌-◌, ◌<◌, ◌≡◌, List, [], ◌∷◌, ◌++◌, Option, none, some, Bool, true, false, ltb,
  if◌then◌else◌, length, take, joined,
}

-- A pointer to a buffer, by the text in it.
abbrev pub Pointer : Type 0
Pointer = Option (List ℕ)

-- The members, and of `threadFunc` the two spare buffers, `buffersToWrite`, whether the locked part
-- is done, and what the file holds.
pub record Logger : Type 0 where
  pub current : Pointer
  pub next : Pointer
  pub buffers : List (List ℕ)
  pub new_buff_1 : Pointer
  pub new_buff_2 : Pointer
  pub to_write : List (List ℕ)
  pub writing : Bool
  pub file : List ℕ

unfoldable pub initial : Logger
initial = record {
  current = some [];
  next = some [];
  buffers = [];
  new_buff_1 = some [];
  new_buff_2 = some [];
  to_write = [];
  writing = false;
  file = [];
}

module _ (size : ℕ) where
  -- logBuffer::append, for a buffer of `size` bytes.
  unfoldable pub buffer_append : List ℕ → List ℕ → List ℕ
  buffer_append src text = if ltb (length src) (size - length text) then text ++ src else text

  abbrev pub or_new : Pointer → List ℕ
  or_new none = []
  or_new (some b) = b

  -- `none` is the use of a null pointer.
  unfoldable pub append : List ℕ → Logger → Option Logger
  append msg s = elim s.current [
    | none ↦ none
    | some cur ↦
        if ltb (length msg) (size - length cur)
        then some (record s { current = some (buffer_append msg cur) })
        else some (record s {
          buffers = s.buffers ++ cur ∷ [];
          current = some (buffer_append msg (or_new s.next));
          next = none;
        })
  ]

abbrev pub as_list : Pointer → List (List ℕ)
as_list none = []
as_list (some b) = b ∷ []

abbrev pub or_else : Pointer → Pointer → Pointer
or_else none q = q
or_else (some b) q = some b

abbrev pub left_of : Pointer → Pointer → Pointer
left_of none q = none
left_of (some b) q = q

-- The locked part of the thread's loop; a null `m_currentBuffer` would be pushed as a null pointer,
-- which holds no text.
unfoldable pub collect : Logger → Logger
collect s = record s {
  current = s.new_buff_1;
  new_buff_1 = none;
  buffers = s.to_write;
  to_write = s.buffers ++ as_list s.current;
  next = or_else s.next s.new_buff_2;
  new_buff_2 = left_of s.next s.new_buff_2;
  writing = true;
}

-- A spare buffer taken from those that are written, and reset; which one does not matter.
abbrev pub refilled : Pointer → List (List ℕ) → Pointer
refilled (some b) bs = some b
refilled none [] = none
refilled none (b ∷ bs) = some []

abbrev pub remaining : Pointer → List (List ℕ) → List (List ℕ)
remaining (some b) bs = bs
remaining none [] = []
remaining none (b ∷ bs) = bs

-- The rest of the loop: write, keep two buffers, take them as spare ones.
unfoldable pub write_out : Logger → Logger
write_out s =
    let kept = take 2 s.to_write in
    record s {
      file = s.file ++ joined s.to_write;
      new_buff_1 = refilled s.new_buff_1 kept;
      new_buff_2 = refilled s.new_buff_2 (remaining s.new_buff_1 kept);
      to_write = [];
      writing = false;
    }
