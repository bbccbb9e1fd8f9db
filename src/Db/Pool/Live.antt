-- ===== src/Db/Pool/Live.antt =====
-- What the pool hands out and keeps.
use new_rojcpp.Prelude.{
  ℕ, suc, ◌-◌, ◌^◌, ◌≤◌, ◌<◌, ◌≡◌, refl, sym, ap, ◌∙◌, List, [], ◌∷◌, ◌++◌, Option, none, some,
  false, arith, ltb, ◌==◌, length, length-append, drop, Bool-cases, inl, inr,
}
use new_rojcpp.Db.Pool.{Conn, Pool, drop_expired, pop_extra, less, get, put, pop_front, with_conn}
use new_rojcpp.Db.Pool.Ordered.{AreBefore, IsOrdered, live, drop_expired_lem, length-live}

-- `size_` is the number of connections, of which there are at most `limit_`, in the order of their
-- last use, none after the time `t`.
pub record IsPool (t : ℕ) (p : Pool) : Type 0 where
  pub sized : p.size ≡ length p.conns
  pub bounded : length p.conns ≤ p.limit
  pub limit_fits : suc p.limit < 2 ^ 64
  pub ordered : IsOrdered p.conns
  pub past : AreBefore t p.conns

abbrev pub front : List Conn → Option Conn
front [] = none
front (c ∷ cs) = some c

abbrev pub behind : List Conn → List Conn
behind [] = []
behind (c ∷ cs) = cs

abbrev holding : Pool → List Conn → Pool
holding p cs = record p { conns = cs; size = length cs }

module _ (t now : ℕ) (p : Pool) (v : IsPool t p) where
  expired_gone :
      drop_expired p.life_time now p.conns p.size
      ≡ (live p.life_time now p.conns, length (live p.life_time now p.conns))
  expired_gone =
      ap (drop_expired p.life_time now p.conns) v.sized
      ∙ drop_expired_lem p.life_time now p.conns v.ordered (omega (arith, v.bounded, v.limit_fits))

  -- On a pool that is in order and whose limit is not 0, `get` hands out the connection that was
  -- used longest ago of those that are not expired, and keeps the others of these, with `size_`
  -- their number; if all are expired it hands out none.
  pub get-live :
      0 < p.limit
      → get now p ≡ (
        front (live p.life_time now p.conns),
        record p {
          conns = behind (live p.life_time now p.conns);
          size = length (behind (live p.life_time now p.conns));
        },
      )
  unfolding get pop_front
  get-live h =
      let used : (p.limit == 0) ≡ false = ground arith in
      rw (used, get, expired_gone)
        (cases (live p.life_time now p.conns)
          (omega (arith, length-live p.life_time now p.conns, v.bounded, v.limit_fits)))
    where
      cases :
          (cs : List Conn)
          → length cs < 2 ^ 64
          → pop_front p cs (length cs) ≡ (front cs, holding p (behind cs))
      cases [] b = refl
      cases (c ∷ cs) b = ap (λ n. (some c, record p { conns = cs; size = n })) (omega arith)

pop_extra_lem :
    (limit : ℕ) (cs : List Conn)
    → length cs < 2 ^ 64
    → pop_extra limit cs (length cs)
      ≡ (drop (length cs - limit) cs, length (drop (length cs - limit) cs))
unfolding pop_extra
pop_extra_lem limit [] h =
    let n : 0 - limit ≡ 0 = omega arith in
    ap (λ k. (drop k [], length (drop {A = Conn} k []))) (sym n)
pop_extra_lem limit (c ∷ cs) h =
    let step : less (length (c ∷ cs)) ≡ length cs = omega arith in
    elim (Bool-cases (ltb limit (length (c ∷ cs)))) [
      | inl extra ↦
          let n : length (c ∷ cs) - limit ≡ suc (length cs - limit) = ground (arith, extra) in
          rw (pop_extra, extra, step, n) (pop_extra_lem limit cs (omega arith))
      | inr fits ↦
          let n : length (c ∷ cs) - limit ≡ 0 = ground (arith, fits) in rw (pop_extra, fits, n) refl
    ]

-- The connections that `put` keeps: those that are not expired and the new one, without the oldest
-- of them that are too many.
abbrev pub added : Option Conn → List Conn → List Conn
added none cs = cs
added (some c) cs = cs ++ c ∷ []

abbrev pub newest : ℕ → List Conn → List Conn
newest limit cs = drop (length cs - limit) cs

with_conn_lem :
    (c_in : Option Conn) (cs : List Conn)
    → suc (length cs) < 2 ^ 64
    → (with_conn c_in cs (length cs) ≡ (added c_in cs, length (added c_in cs)))
      × (length (added c_in cs) < 2 ^ 64)
unfolding with_conn
with_conn_lem none cs h = (refl, omega arith)
with_conn_lem (some c) cs h = (
  ap (λ n. (cs ++ c ∷ [], n)) (omega (arith, length-append cs (c ∷ []))),
  omega (arith, length-append cs (c ∷ [])),
)

module _ (t now : ℕ) (p : Pool) (v : IsPool t p) where
  -- On a pool that is in order and whose limit is not 0, `put` keeps of the connections that are
  -- not expired, and the new one behind them, the newest `limit_`, with `size_` their number.
  pub put-newest :
      (c_in : Option Conn)
      → 0 < p.limit
      → put now c_in p ≡ record p {
        conns = newest p.limit (added c_in (live p.life_time now p.conns));
        size = length (newest p.limit (added c_in (live p.life_time now p.conns)));
      }
  unfolding put
  put-newest c_in h =
      let used : (p.limit == 0) ≡ false = ground arith in
      let (joined, fits) =
        with_conn_lem c_in (live p.life_time now p.conns)
          (omega (arith, length-live p.life_time now p.conns, v.bounded, v.limit_fits)) in
      let popped = pop_extra_lem p.limit (added c_in (live p.life_time now p.conns)) fits in
      rw (used, put, expired_gone t now p v, joined, popped) refl
