-- ===== src/Judge/RwLock/Tests.antt =====
-- Instances of the theorems on the read-write lock.
use new_rojcpp.Prelude.{◌≡◌, refl, true, false}
use new_rojcpp.Prelude.Int.{pos}
use new_rojcpp.Judge.RwLock.{Lock, free, read_waits, write_waits, lock_read, unlock_read}
use new_rojcpp.Judge.RwLock.Exclusion.{
  Reach, IsExclusive, idle, here, next, enter_read, leave_read, Reach-IsExclusive,
}

abbrev held : Lock
held = record { read_cnt = pos 1; write_cnt = pos 0 }

one_reader : Reach idle (record { lock = held; readers = 1; writers = 0 })
unfolding lock_read free idle read_waits
one_reader = next here (enter_read held refl refl)

no_reader : Reach idle (record { lock = free; readers = 0; writers = 0 })
unfolding unlock_read free
no_reader = next one_reader (leave_read 0 refl refl)

Reach-IsExclusive_example : IsExclusive (record { lock = held; readers = 1; writers = 0 })
Reach-IsExclusive_example = Reach-IsExclusive one_reader

writer_waits : write_waits held ≡ true
unfolding write_waits
writer_waits = refl

writer_runs : write_waits (unlock_read held).0 ≡ false
unfolding write_waits unlock_read
writer_runs = refl
