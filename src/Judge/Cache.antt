-- ===== src/Judge/Cache.antt =====
-- judgeCache of include/judge/judgeServerMediator.hpp: the results of submissions, behind the
-- read-write lock. Each call is written as it runs alone; `none` means that it waits for the lock.
pub mod Contents
pub mod Leak
mod Tests
use new_rojcpp.Prelude.{ℕ, ◌+◌, ◌*◌, ◌≡◌, Bool, true, false, not, List, [], Option, none, some, ltb}
use new_rojcpp.Prelude.Dict.{lookup, insert, erase, retain, nat_eq}
use new_rojcpp.Prelude.Int.{ℤ}
use new_rojcpp.Judge.RwLock.{Lock, lock_read, unlock_read, lock_write, unlock_write}

-- judgeMsg; times are nanoseconds of the steady clock.
pub record Msg : Type 0 where
  pub end_time : ℕ
  pub point : ℤ
  pub all_point : ℤ
  pub result_code : ℤ
  pub res : List ℕ

pub record Cache : Type 0 where
  pub lock : Lock
  pub map : List (ℕ × Msg)

infixl 5 ◌>>=◌
abbrev ◌>>=◌ {ℓ κ} : {A : Type ℓ} {B : Type κ} → Option A → (A → Option B) → Option B
none >>= k = none
some a >>= k = k a

abbrev pub is_some {ℓ} : {A : Type ℓ} → Option A → Bool
is_some none = false
is_some (some a) = true

pub has_key : ℕ → Cache → Option (Bool × Cache)
has_key key c = do
  l ← lock_read c.lock
  let exists = is_some (lookup key c.map)
  some (exists, record c { lock = (unlock_read l).0 })

-- Where the key is missing the lock is taken a second time, and nothing is unlocked.
unfoldable pub get : ℕ → Cache → Option (Option Msg × Cache)
get key c = do
  l ← lock_read c.lock
  elim (lookup key c.map) [
    | some ret ↦ some (some ret, record c { lock = (unlock_read l).0 })
    | none ↦ do l' ← lock_read l; some (none, record c { lock = l' })
  ]

pub delete : ℕ → Cache → Option Cache
delete key c = do
  l ← lock_write c.lock
  some (record c { lock = (unlock_write l).0; map = erase key c.map })

-- Five minutes.
abbrev pub life : ℕ
life = 60 * 5 * 1_000_000_000

abbrev pub new_msg : ℕ → ℤ → ℤ → ℤ → List ℕ → Msg
new_msg now point all_point result_code res = record {
  end_time = now + life;
  point = point;
  all_point = all_point;
  result_code = result_code;
  res = res;
}

unfoldable pub create : ℕ → ℕ → ℤ → ℤ → ℤ → List ℕ → Cache → Option Cache
create now key point all_point result_code res c = do
  l ← lock_write c.lock
  let msg = new_msg now point all_point result_code res
  some (record c { lock = (unlock_write l).0; map = insert key msg c.map })

abbrev pub is_live : ℕ → Msg → Bool
is_live now m = not (ltb m.end_time now)

pub check_expire : ℕ → Cache → Option Cache
check_expire now c = do
  l ← lock_write c.lock
  some (record c { lock = (unlock_write l).0; map = retain (is_live now) c.map })
