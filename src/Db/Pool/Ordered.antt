-- ===== src/Db/Pool/Ordered.antt =====
-- The order of last use in the pool, and the connections that are not expired.
use new_rojcpp.Prelude.{
  ℕ, ◌+◌, ◌^◌, ◌≤◌, ◌<◌, ◌≡◌, refl, List, [], ◌∷◌, false, arith, ltb, if◌then◌else◌, length,
  Bool-cases, inl, inr,
}
use new_rojcpp.Db.Pool.{Conn, drop_expired, less}

-- Every connection was used at this time or later, or not after it.
abbrev pub AreAfter : ℕ → List Conn → Type 0
AreAfter t [] = Unit
AreAfter t (c ∷ cs) = (t ≤ c.last_used) × AreAfter t cs

abbrev pub AreBefore : ℕ → List Conn → Type 0
AreBefore t [] = Unit
AreBefore t (c ∷ cs) = (c.last_used ≤ t) × AreBefore t cs

abbrev pub IsOrdered : List Conn → Type 0
IsOrdered [] = Unit
IsOrdered (c ∷ cs) = AreAfter c.last_used cs × IsOrdered cs

-- The connections that are not expired.
unfoldable pub live : ℕ → ℕ → List Conn → List Conn
live life_time now [] = []
live life_time now (c ∷ cs) =
    let rest = live life_time now cs in if ltb (c.last_used + life_time) now then rest else c ∷ rest

live_after :
    (life_time now t : ℕ) (cs : List Conn)
    → (ltb (t + life_time) now) ≡ false
    → AreAfter t cs
    → live life_time now cs ≡ cs
unfolding live
live_after life_time now t [] h a = refl
live_after life_time now t (c ∷ cs) h a = ground (arith, live_after life_time now t cs h a.1)

-- On an ordered pool the loop from the front removes all expired connections and no other.
pub drop_expired_lem :
    (life_time now : ℕ) (cs : List Conn)
    → IsOrdered cs
    → length cs < 2 ^ 64
    → drop_expired life_time now cs (length cs)
      ≡ (live life_time now cs, length (live life_time now cs))
unfolding drop_expired live
drop_expired_lem life_time now [] o h = refl
drop_expired_lem life_time now (c ∷ cs) o h =
    let step : less (length (c ∷ cs)) ≡ length cs = omega arith in
    let ih = drop_expired_lem life_time now cs o.1 (omega arith) in
    elim (Bool-cases (ltb (c.last_used + life_time) now)) [
      | inl old ↦ rw (drop_expired, live, old, step) ih
      | inr fresh ↦
          let all = live_after life_time now c.last_used cs fresh o.0 in
          rw (drop_expired, live, fresh, all) refl
    ]

live-AreAfter :
    (life_time now t : ℕ) (cs : List Conn) → AreAfter t cs → AreAfter t (live life_time now cs)
unfolding live
live-AreAfter life_time now t [] a = tt
live-AreAfter life_time now t (c ∷ cs) a = ground (arith, live-AreAfter life_time now t cs a.1)

pub live-AreBefore :
    (life_time now t : ℕ) (cs : List Conn) → AreBefore t cs → AreBefore t (live life_time now cs)
unfolding live
live-AreBefore life_time now t [] a = tt
live-AreBefore life_time now t (c ∷ cs) a = ground (arith, live-AreBefore life_time now t cs a.1)

pub live-IsOrdered :
    (life_time now : ℕ) (cs : List Conn) → IsOrdered cs → IsOrdered (live life_time now cs)
unfolding live
live-IsOrdered life_time now [] o = tt
live-IsOrdered life_time now (c ∷ cs) o =
    ground
      (arith, live-AreAfter life_time now c.last_used cs o.0, live-IsOrdered life_time now cs o.1)

pub length-live : (life_time now : ℕ) (cs : List Conn) → length (live life_time now cs) ≤ length cs
unfolding live
length-live life_time now [] = omega arith
length-live life_time now (c ∷ cs) = ground (arith, length-live life_time now cs)
