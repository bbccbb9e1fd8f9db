-- ===== src/Judge/RwLock/Exclusion.antt =====
-- ReadWriteLock.hpp: any number of threads that lock and unlock in pairs.
use new_rojcpp.Prelude.{ℕ, suc, ◌≡◌, refl, ◌⊎◌, inl, some, arith}
use new_rojcpp.Prelude.Int.{pos}
use new_rojcpp.Judge.RwLock.{Lock, free, lock_read, lock_write, unlock_read, unlock_write}

-- The lock, and how many threads are in a section for reading and in one for writing.
pub record Threads : Type 0 where
  pub lock : Lock
  pub readers : ℕ
  pub writers : ℕ

-- What a thread may do: enter a section when its call does not wait, and leave the one it is in.
pub data Step (s t : Threads) : Type 0 where
  enter_read :
      (l : Lock)
      → lock_read s.lock ≡ some l
      → t ≡ record s { lock = l; readers = suc s.readers }
      → Step s t
  leave_read :
      (n : ℕ)
      → s.readers ≡ suc n
      → t ≡ record s { lock = (unlock_read s.lock).0; readers = n }
      → Step s t
  enter_write :
      (l : Lock)
      → lock_write s.lock ≡ some l
      → t ≡ record s { lock = l; writers = suc s.writers }
      → Step s t
  leave_write :
      (n : ℕ)
      → s.writers ≡ suc n
      → t ≡ record s { lock = (unlock_write s.lock).0; writers = n }
      → Step s t

pub data Reach (s : Threads) : Threads → Type 0 where
  here : Reach s s
  next : {t u : Threads} → Reach s t → Step t u → Reach s u

unfoldable pub idle : Threads
idle = record { lock = free; readers = 0; writers = 0 }

-- The counts are those of the threads, and a writer is alone.
pub record IsExclusive (s : Threads) : Type 0 where
  pub reads : s.lock.read_cnt ≡ pos s.readers
  pub writes : s.lock.write_cnt ≡ pos s.writers
  pub alone : (s.writers ≡ 0) ⊎ ((s.writers ≡ 1) × (s.readers ≡ 0))

idle-IsExclusive : IsExclusive idle
unfolding idle free
idle-IsExclusive = record { reads = refl; writes = refl; alone = inl refl }

Step-IsExclusive : {s t : Threads} → Step s t → IsExclusive s → IsExclusive t
unfolding lock_read lock_write unlock_read unlock_write
Step-IsExclusive (enter_read l e h) v = ground arith
Step-IsExclusive (leave_read n e h) v = ground arith
Step-IsExclusive (enter_write l e h) v = ground arith
Step-IsExclusive (leave_write n e h) v = ground arith

-- From the unlocked state, whatever the threads do in whatever order: the two counts are the
-- numbers of threads in a section, at most one thread writes, and none reads while one writes.
pub Reach-IsExclusive : {t : Threads} → Reach idle t → IsExclusive t
Reach-IsExclusive here = idle-IsExclusive
Reach-IsExclusive (next r s) = Step-IsExclusive s (Reach-IsExclusive r)
