-- ===== src/Judge/Cache/Leak.antt =====
-- judgeCache::get of a key that is not there takes the lock for reading a second time instead of
-- giving it back.
use new_rojcpp.Prelude.{ℕ, suc, ◌+◌, ◌<◌, ◌≡◌, refl, ◌⊎◌, some, none, Option, List, arith}
use new_rojcpp.Prelude.Dict.{lookup, nat_eq}
use new_rojcpp.Prelude.Int.{ℤ, pos}
use new_rojcpp.Judge.RwLock.{Lock, free, lock_read, lock_write, unlock_read, unlock_write}
use new_rojcpp.Judge.RwLock.Exclusion.{
  Threads, Step, enter_read, leave_read, enter_write, leave_write,
}
use new_rojcpp.Judge.Cache.{Msg, ◌>>=◌, Cache, get, create, delete, check_expire}

-- The threads of the cache, and how many holds of the lock for reading nobody will give back.
pub record Calls : Type 0 where
  pub threads : Threads
  pub lost : ℕ

-- What `get` leaves behind where it returns without a message: two holds more that nobody gives back.
abbrev pub after_miss : Calls → Cache → Calls
after_miss s c = record { threads = record s.threads { lock = c.lock }; lost = suc (suc s.lost) }

-- A call enters or leaves its section, or it is a `get` that returns without a message, on a cache
-- with the lock as it is. Such a `get` is one step: only readers can come between its two locks.
pub data CallStep (s t : Calls) : Type 0 where
  section : (u : Threads) → Step s.threads u → t ≡ record s { threads = u } → CallStep s t
  miss :
      (key : ℕ) (c c' : Cache)
      → c.lock ≡ s.threads.lock
      → get key c ≡ some (none, c')
      → t ≡ after_miss s c'
      → CallStep s t

pub data CallReach (s : Calls) : Calls → Type 0 where
  here : CallReach s s
  next : {t u : Calls} → CallReach s t → CallStep t u → CallReach s u

-- The count of readers is that of the threads and of the lost holds; a lost hold keeps writers out.
pub record IsCounted (s : Calls) : Type 0 where
  pub reads : s.threads.lock.read_cnt ≡ pos (s.threads.readers + s.lost)
  pub writes : s.threads.lock.write_cnt ≡ pos s.threads.writers
  pub alone :
      (s.threads.writers ≡ 0) ⊎ ((s.threads.writers ≡ 1) × (s.threads.readers ≡ 0) × (s.lost ≡ 0))

section-IsCounted :
    {t u : Threads} (lost : ℕ)
    → Step t u
    → IsCounted (record { threads = t; lost = lost })
    → IsCounted (record { threads = u; lost = lost })
unfolding lock_read lock_write unlock_read unlock_write
section-IsCounted lost (enter_read l e h) v = ground arith
section-IsCounted lost (leave_read n e h) v = ground arith
section-IsCounted lost (enter_write l e h) v = ground arith
section-IsCounted lost (leave_write n e h) v = ground arith

-- The rest of `get`, behind each of its locks.
abbrev keeping : Cache → Lock → Option (Option Msg × Cache)
keeping c l = some (none, record c { lock = l })

abbrev answering : Cache → Option Msg → Lock → Option (Option Msg × Cache)
answering c found l = elim found [
  | some ret ↦ some (some ret, record c { lock = (unlock_read l).0 })
  | none ↦ lock_read l >>= keeping c
]

locked_again :
    (c c' : Cache) (l : Option Lock) → (l >>= keeping c) ≡ some (none, c') → l ≡ some c'.lock
locked_again c c' none h = absurd (ground (arith, h))
locked_again c c' (some l') h = ground (arith, h)

locked_twice :
    (c c' : Cache) (l : Option Lock) (found : Option Msg)
    → (l >>= answering c found) ≡ some (none, c')
    → (l' : Lock) × (l ≡ some l') × (lock_read l' ≡ some c'.lock)
locked_twice c c' none found h = absurd (ground (arith, h))
locked_twice c c' (some l') (some ret) h = absurd (ground (arith, h))
locked_twice c c' (some l') none h = (l', refl, locked_again c c' (lock_read l') h)

-- What `get` does to the lock where it returns without a message.
miss-lock :
    (key : ℕ) (c c' : Cache)
    → get key c ≡ some (none, c')
    → (l : Lock) × (lock_read c.lock ≡ some l) × (lock_read l ≡ some c'.lock)
unfolding get
miss-lock key c c' h = locked_twice c c' (lock_read c.lock) (lookup key c.map) h

miss-IsCounted :
    (s : Calls) (key : ℕ) (c c' : Cache)
    → c.lock ≡ s.threads.lock
    → get key c ≡ some (none, c')
    → IsCounted s
    → IsCounted (after_miss s c')
unfolding lock_read
miss-IsCounted s key c c' e h v = let (l, a, b) = miss-lock key c c' h in ground (arith, a, b, e)

CallStep-IsCounted : {s t : Calls} → CallStep s t → IsCounted s → IsCounted t
CallStep-IsCounted {s} (section u st e) v = rw e (section-IsCounted s.lost st v)
CallStep-IsCounted {s} (miss key c c' e h f) v = rw f (miss-IsCounted s key c c' e h v)

CallStep-lost : {s t : Calls} → CallStep s t → 0 < s.lost → 0 < t.lost
CallStep-lost (section u st e) h = ground arith
CallStep-lost (miss key c c' e k f) h = ground arith

CallReach-lost :
    {s t : Calls} → CallReach s t → IsCounted s → 0 < s.lost → IsCounted t × (0 < t.lost)
CallReach-lost here v h = (v, h)
CallReach-lost (next r st) v h =
    let (w, k) = CallReach-lost r v h in (CallStep-IsCounted st w, CallStep-lost st k)

-- In a state whose count of readers is that of the threads and the lost holds: once a `get` has
-- returned without a message, every `lock_write` waits, whatever calls the threads make after it.
pub miss_blocks_writers :
    {s t : Calls} (key : ℕ) (c c' : Cache)
    → IsCounted s
    → c.lock ≡ s.threads.lock
    → get key c ≡ some (none, c')
    → CallReach (after_miss s c') t
    → lock_write t.threads.lock ≡ none
unfolding lock_write
miss_blocks_writers {s} key c c' v e h r =
    let (w, k) = CallReach-lost r (miss-IsCounted s key c c' e h v) (omega arith) in
    ground (arith, w.reads, w.writes, k)

-- Run alone from a free lock, a `get` that misses returns `none` and leaves two holds on the lock,
-- after which each of `create`, `Delete` and `check_expire` waits for ever.
pub get_miss :
    (c : Cache) (key : ℕ)
    → c.lock ≡ free
    → lookup key c.map ≡ none
    → (c' : Cache) × (get key c ≡ some (none, c'))
      × (c'.lock.read_cnt ≡ pos 2)
      × ((now k : ℕ) (point all_point result_code : ℤ) (res : List ℕ)
          → create now k point all_point result_code res c' ≡ none)
      × ((k : ℕ) → delete k c' ≡ none)
      × ((now : ℕ) → check_expire now c' ≡ none)
unfolding get create delete check_expire lock_read lock_write free
get_miss c key e h = (
  record c { lock = record { read_cnt = pos 2; write_cnt = pos 0 } },
  ground arith,
  refl,
  λ _ _ _ _ _ _. refl,
  λ _. refl,
  λ _. refl,
)
