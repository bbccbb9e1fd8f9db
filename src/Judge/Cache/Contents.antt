-- ===== src/Judge/Cache/Contents.antt =====
-- judgeCache as a map from submissions to results, while no call holds the lock.
use new_rojcpp.Prelude.{
  ℕ, ◌≡◌, refl, List, Option, none, some, arith, if◌then◌else◌, nat_beq, leb, ◌+◌, true, false,
  Bool-cases, inl, inr, ◌⊎◌, ap, ◌∙◌,
}
use new_rojcpp.Prelude.Dict.{
  IsMap, lookup, insert, erase, retain, lookup-insert, lookup-erase, lookup-retain, insert-IsMap,
  erase-IsMap, retain-IsMap, keep_if, nat_eq,
}
use new_rojcpp.Prelude.Int.{ℤ, pos}
use new_rojcpp.Judge.RwLock.{free, Lock, lock_read, unlock_read, lock_write, unlock_write}
use new_rojcpp.Judge.Cache.{
  Msg, Cache, get, delete, create, check_expire, has_key, new_msg, is_live, is_some,
}

abbrev pub view : Cache → ℕ → Option Msg
view c key = lookup key c.map

pub record IsFree (c : Cache) : Type 0 where
  pub unlocked : c.lock ≡ free
  pub distinct : IsMap c.map

-- `r` is a call that returned, left the lock free, and changed the view to `f`.
pub record Updates (f : ℕ → Option Msg) (r : Option Cache) : Type 0 where
  pub after : Cache
  pub returned : r ≡ some after
  pub free_after : IsFree after
  pub viewed : (key : ℕ) → view after key ≡ f key

write_section :
    (l : Lock) → l ≡ free → (l' : Lock) × (lock_write l ≡ some l') × ((unlock_write l').0 ≡ free)
unfolding lock_write unlock_write free
write_section l e = (record { read_cnt = pos 0; write_cnt = pos 1 }, ground arith, refl)

read_section :
    (l : Lock) → l ≡ free → (l' : Lock) × (lock_read l ≡ some l') × ((unlock_read l').0 ≡ free)
unfolding lock_read unlock_read free
read_section l e = (record { read_cnt = pos 1; write_cnt = pos 0 }, ground arith, refl)

-- A message whose end is not in the past.
abbrev pub until : ℕ → Option Msg → Option Msg
until later none = none
until later (some m) = if leb later m.end_time then some m else none

abbrev pub and_expire : ℕ → Option Cache → Option Cache
and_expire later none = none
and_expire later (some c) = check_expire later c

until-is_live : (later : ℕ) (m : Option Msg) → keep_if (is_live later) m ≡ until later m
until-is_live later none = refl
until-is_live later (some m) =
    let same : is_live later m ≡ leb later m.end_time = ground arith in rw same refl

module _ (c : Cache) (h : IsFree c) where
  -- On a free lock `create` returns and sets one key, to a message that lives for five minutes; the
  -- other keys stay, and the lock is free again.
  pub create-Updates :
      (now key : ℕ) (point all_point result_code : ℤ) (res : List ℕ)
      → Updates
          (λ j.
            if nat_beq key j then some (new_msg now point all_point result_code res) else view c j)
          (create now key point all_point result_code res c)
  unfolding create
  create-Updates now key point all_point result_code res =
      let (l', e, f) = write_section c.lock h.unlocked in
      record {
        after = record c { lock = (unlock_write l').0; map = insert key _ c.map };
        returned = rw (e, create);
        free_after = record { unlocked = f; distinct = insert-IsMap key _ c.map h.distinct };
        viewed = λ j. lookup-insert key j _ c.map;
      }

  -- On a free lock `Delete` removes one key, and the lock is free again.
  pub delete-Updates :
      (key : ℕ) → Updates (λ j. if nat_beq key j then none else view c j) (delete key c)
  unfolding delete
  delete-Updates key =
      let (l', e, f) = write_section c.lock h.unlocked in
      record {
        after = record c { lock = (unlock_write l').0; map = erase key c.map };
        returned = rw (e, delete);
        free_after = record { unlocked = f; distinct = erase-IsMap key c.map h.distinct };
        viewed = λ j. lookup-erase key j c.map;
      }

  -- On a free lock `check_expire` removes exactly the messages whose end lies in the past, and the
  -- lock is free again.
  pub check_expire-Updates :
      (now : ℕ) → Updates (λ j. keep_if (is_live now) (view c j)) (check_expire now c)
  unfolding check_expire
  check_expire-Updates now =
      let (l', e, f) = write_section c.lock h.unlocked in
      record {
        after = record c { lock = (unlock_write l').0; map = retain (is_live now) c.map };
        returned = rw (e, check_expire);
        free_after = record {
          unlocked = f;
          distinct = retain-IsMap (is_live now) c.map h.distinct;
        };
        viewed = λ j. lookup-retain (is_live now) j c.map h.distinct;
      }

  -- On a free lock `get` of a key that is there returns its message and leaves the cache as it was.
  pub get_hit : (key : ℕ) (m : Msg) → view c key ≡ some m → get key c ≡ some (some m, c)
  unfolding get
  get_hit key m hit =
      let (l', e, f) = read_section c.lock h.unlocked in
      rw (e, get, hit) (let back : (unlock_read l').0 ≡ c.lock = cc (f, h.unlocked) in rw back)

  -- `has_key` tells whether the key is there and leaves the cache as it was.
  pub has_key_lem : (key : ℕ) → has_key key c ≡ some (is_some (view c key), c)
  unfolding has_key
  has_key_lem key =
      let (l', e, f) = read_section c.lock h.unlocked in
      rw (e, has_key) (let back : (unlock_read l').0 ≡ c.lock = cc (f, h.unlocked) in rw back)

-- On a free lock, a message that is created at the time `now` and the expiry at the time `later`: the
-- message is there afterwards exactly if `later` is at most five minutes behind `now`, the message of
-- every other key exactly if `later` is not behind its end, each with what it held, and the lock is
-- free again.
pub check_expire-create :
    (c : Cache) (h : IsFree c) (now later key : ℕ) (point all_point result_code : ℤ) (res : List ℕ)
    → Updates
        (λ j.
          if nat_beq key j
          then (if leb later (now + 300_000_000_000)
              then some (record {
                end_time = now + 300_000_000_000;
                point = point;
                all_point = all_point;
                result_code = result_code;
                res = res;
              })
              else none)
          else until later (view c j))
        (and_expire later (create now key point all_point result_code res c))
check_expire-create c h now later key point all_point result_code res =
    let a = create-Updates c h now key point all_point result_code res in
    let b = check_expire-Updates a.after a.free_after later in
    record {
      after = b.after;
      returned = ap (and_expire later) a.returned ∙ b.returned;
      free_after = b.free_after;
      viewed = λ j.
          b.viewed j
          ∙ until-is_live later (view a.after j)
          ∙ ap (until later) (a.viewed j)
          ∙ after_create j (Bool-cases (nat_beq key j));
    }
  where
    created : Msg
    created = record {
      end_time = now + 300_000_000_000;
      point = point;
      all_point = all_point;
      result_code = result_code;
      res = res;
    }

    after_create :
        (j : ℕ)
        → (nat_beq key j ≡ true) ⊎ (nat_beq key j ≡ false)
        → until later (if nat_beq key j then some created else view c j)
          ≡ (if nat_beq key j then until later (some created) else until later (view c j))
    after_create j (inl e) = rw e refl
    after_create j (inr e) = rw e refl
