-- ===== src/Judge/RwLock.antt =====
-- include/judge/ReadWriteLock.hpp: a lock with a count of readers and one of writers. Each call
-- holds the mutex, so it is one step; a call that must wait is `none`.
pub mod Exclusion
pub mod Wakeup
mod Tests
use new_rojcpp.Prelude.{Bool, true, ◌||◌, Option, none, some, if◌then◌else◌}
use new_rojcpp.Prelude.Int.{ℤ, pos, increment, decrement, is_positive, is_zero}

-- The counts are `int`s; there are fewer than 2 ^ 31 holders.
pub record Lock : Type 0 where
  pub read_cnt : ℤ
  pub write_cnt : ℤ

unfoldable pub free : Lock
free = record { read_cnt = pos 0; write_cnt = pos 0 }

-- The conditions of the two `while` loops, under which a call waits.
unfoldable pub read_waits : Lock → Bool
read_waits l = is_positive l.write_cnt

unfoldable pub write_waits : Lock → Bool
write_waits l = is_positive l.write_cnt || is_positive l.read_cnt

unfoldable pub lock_read : Lock → Option Lock
unfolding read_waits
lock_read l = if read_waits l then none else some (record l { read_cnt = increment l.read_cnt })

unfoldable pub lock_write : Lock → Option Lock
unfolding write_waits
lock_write l = if write_waits l then none else some (record l { write_cnt = increment l.write_cnt })

-- The new lock, and whether `notify_all` is called.
unfoldable pub unlock_read : Lock → Lock × Bool
unlock_read l = let cnt = decrement l.read_cnt in (record l { read_cnt = cnt }, is_zero cnt)

unfoldable pub unlock_write : Lock → Lock × Bool
unlock_write l = (record l { write_cnt = decrement l.write_cnt }, true)
