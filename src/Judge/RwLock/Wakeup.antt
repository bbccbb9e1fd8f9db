-- ===== src/Judge/RwLock/Wakeup.antt =====
-- ReadWriteLock.hpp: which calls wait, and when waiting ones are notified.
use new_rojcpp.Prelude.{◌≡◌, true, false, arith}
use new_rojcpp.Judge.RwLock.{Lock, read_waits, write_waits, unlock_read}
use new_rojcpp.Judge.RwLock.Exclusion.{Threads, Reach, idle, Reach-IsExclusive}

-- A `lock_write` that had to wait before an `unlock_read` and need not wait after it is notified.
pub unlock_read_notifies :
    (l : Lock)
    → write_waits l ≡ true
    → write_waits (unlock_read l).0 ≡ false
    → (unlock_read l).1 ≡ true
unfolding unlock_read write_waits
unlock_read_notifies l = ground arith

-- Whatever the threads have done, when none of them is in a section neither call waits.
pub idle_waits :
    {t : Threads}
    → Reach idle t
    → t.readers ≡ 0
    → t.writers ≡ 0
    → (read_waits t.lock ≡ false) × (write_waits t.lock ≡ false)
unfolding read_waits write_waits
idle_waits r p q = let v = Reach-IsExclusive r in ground (arith, v.reads, v.writes)
