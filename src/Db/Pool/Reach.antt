-- ===== src/Db/Pool/Reach.antt =====
-- The pool over any sequence of calls.
use new_rojcpp.Prelude.{
  ℕ, zero, suc, ◌-◌, ◌^◌, ◌≤◌, ◌<◌, ◌≡◌, refl, List, [], ◌∷◌, ◌++◌, Option, none, some, true, arith,
  ◌==◌, length, length-drop, drop, Bool-cases, inl, inr,
}
use new_rojcpp.Db.Pool.{Conn, Pool, get, put, clear}
use new_rojcpp.Db.Pool.Ordered.{
  AreAfter, AreBefore, IsOrdered, live, live-AreBefore, live-IsOrdered, length-live,
}
use new_rojcpp.Db.Pool.Live.{IsPool, get-live, put-newest, behind, added}

-- Calls one after the other, at any times `now`: a connection that comes back was used last when it
-- comes back, not before the ones that came back earlier, at the latest at `t`.
pub data Reach (limit life_time : ℕ) : ℕ → Pool → Type 0 where
  created :
      (t : ℕ)
      → Reach limit life_time t
          (record { limit = limit; size = 0; life_time = life_time; conns = [] })
  opened :
      {t : ℕ} {p : Pool} (now : ℕ)
      → Reach limit life_time t p
      → Reach limit life_time t (get now p).1
  closed :
      {t : ℕ} {p : Pool} (now : ℕ) (c : Conn)
      → t ≤ c.last_used
      → Reach limit life_time t p
      → Reach limit life_time c.last_used (put now (some c) p)
  collected :
      {t : ℕ} {p : Pool} (now : ℕ)
      → Reach limit life_time t p
      → Reach limit life_time t (put now none p)
  cleared : {t : ℕ} {p : Pool} → Reach limit life_time t p → Reach limit life_time t (clear p)

later-AreBefore : (t u : ℕ) (cs : List Conn) → t ≤ u → AreBefore t cs → AreBefore u cs
later-AreBefore t u [] h b = tt
later-AreBefore t u (c ∷ cs) h b = (omega (arith, b.0), later-AreBefore t u cs h b.1)

append-AreAfter :
    (t : ℕ) (cs : List Conn) (c : Conn)
    → AreAfter t cs
    → t ≤ c.last_used
    → AreAfter t (cs ++ c ∷ [])
append-AreAfter t [] c a h = (h, tt)
append-AreAfter t (d ∷ cs) c a h = (a.0, append-AreAfter t cs c a.1 h)

append-AreBefore :
    (t : ℕ) (cs : List Conn) (c : Conn)
    → AreBefore t cs
    → c.last_used ≤ t
    → AreBefore t (cs ++ c ∷ [])
append-AreBefore t [] c a h = (h, tt)
append-AreBefore t (d ∷ cs) c a h = (a.0, append-AreBefore t cs c a.1 h)

append-IsOrdered :
    (cs : List Conn) (c : Conn) → IsOrdered cs → AreBefore c.last_used cs → IsOrdered (cs ++ c ∷ [])
append-IsOrdered [] c o b = (tt, tt)
append-IsOrdered (d ∷ cs) c o b =
    (append-AreAfter d.last_used cs c o.0 b.0, append-IsOrdered cs c o.1 b.1)

drop-IsOrdered : (n : ℕ) (cs : List Conn) → IsOrdered cs → IsOrdered (drop n cs)
drop-IsOrdered zero cs o = o
drop-IsOrdered (suc n) [] o = tt
drop-IsOrdered (suc n) (c ∷ cs) o = drop-IsOrdered n cs o.1

drop-AreBefore : (n t : ℕ) (cs : List Conn) → AreBefore t cs → AreBefore t (drop n cs)
drop-AreBefore zero t cs b = b
drop-AreBefore (suc n) t [] b = tt
drop-AreBefore (suc n) t (c ∷ cs) b = drop-AreBefore n t cs b.1

behind-IsOrdered : (cs : List Conn) → IsOrdered cs → IsOrdered (behind cs)
behind-IsOrdered [] o = tt
behind-IsOrdered (c ∷ cs) o = o.1

behind-AreBefore : (t : ℕ) (cs : List Conn) → AreBefore t cs → AreBefore t (behind cs)
behind-AreBefore t [] b = tt
behind-AreBefore t (c ∷ cs) b = b.1

length-behind : (cs : List Conn) → length (behind cs) ≤ length cs
length-behind [] = omega arith
length-behind (c ∷ cs) = omega arith

get_unused : (now : ℕ) (p : Pool) → (p.limit == 0) ≡ true → get now p ≡ (none, p)
unfolding get
get_unused now p e = rw (e, get) refl

put_unused : (now : ℕ) (c_in : Option Conn) (p : Pool) → (p.limit == 0) ≡ true → put now c_in p ≡ p
unfolding put
put_unused now c_in p e = rw (e, put) refl

get-IsPool : (t now : ℕ) (p : Pool) → IsPool t p → IsPool t (get now p).1
get-IsPool t now p v = elim (Bool-cases (p.limit == 0)) [
  | inl e ↦ rw (get_unused now p e) v
  | inr e ↦
      let l = live p.life_time now p.conns in
      rw (get-live t now p v (ground (arith, e))) (record {
        sized = refl;
        bounded = omega (arith, length-behind l, length-live p.life_time now p.conns, v.bounded);
        limit_fits = v.limit_fits;
        ordered = behind-IsOrdered l (live-IsOrdered p.life_time now p.conns v.ordered);
        past = behind-AreBefore t l (live-AreBefore p.life_time now t p.conns v.past);
      })
]

put-IsPool :
    (t u now : ℕ) (c_in : Option Conn) (p : Pool)
    → IsPool t p
    → t ≤ u
    → IsOrdered (added c_in (live p.life_time now p.conns))
    → AreBefore u (added c_in (live p.life_time now p.conns))
    → IsPool u (put now c_in p)
put-IsPool t u now c_in p v h o b = elim (Bool-cases (p.limit == 0)) [
  | inl e ↦ rw (put_unused now c_in p e) (record {
    sized = v.sized;
    bounded = v.bounded;
    limit_fits = v.limit_fits;
    ordered = v.ordered;
    past = later-AreBefore t u p.conns h v.past;
  })
  | inr e ↦
      let all = added c_in (live p.life_time now p.conns) in
      rw (put-newest t now p v c_in (ground (arith, e))) (record {
        sized = refl;
        bounded = omega (arith, length-drop (length all - p.limit) all);
        limit_fits = v.limit_fits;
        ordered = drop-IsOrdered (length all - p.limit) all o;
        past = drop-AreBefore (length all - p.limit) u all b;
      })
]

-- Whatever calls are made, if connections come back in the order of their last use: `size_` is the
-- number of connections in the pool, there are at most `limit_`, and they stand in the order of
-- their last use, none after the last one that came back. The limit is below 2 ^ 64 - 1.
pub Reach-IsPool :
    {limit life_time t : ℕ} {p : Pool} → suc limit < 2 ^ 64 → Reach limit life_time t p → IsPool t p
unfolding clear
Reach-IsPool h (created t) = record {
  sized = refl;
  bounded = omega arith;
  limit_fits = h;
  ordered = tt;
  past = tt;
}
Reach-IsPool h (opened {t} {p} now r) = get-IsPool t now p (Reach-IsPool h r)
Reach-IsPool h (closed {t} {p} now c k r) =
    let v = Reach-IsPool h r in
    let ordered = live-IsOrdered p.life_time now p.conns v.ordered in
    let past =
      later-AreBefore t c.last_used (live p.life_time now p.conns) k
        (live-AreBefore p.life_time now t p.conns v.past) in
    put-IsPool t c.last_used now (some c) p v k
      (append-IsOrdered (live p.life_time now p.conns) c ordered past)
      (append-AreBefore c.last_used (live p.life_time now p.conns) c past (omega arith))
Reach-IsPool h (collected {t} {p} now r) =
    let v = Reach-IsPool h r in
    put-IsPool t t now none p v (omega arith) (live-IsOrdered p.life_time now p.conns v.ordered)
      (live-AreBefore p.life_time now t p.conns v.past)
Reach-IsPool h (cleared {t} {p} r) =
    let v = Reach-IsPool h r in
    record {
      sized = refl;
      bounded = omega arith;
      limit_fits = v.limit_fits;
      ordered = tt;
      past = tt;
    }
