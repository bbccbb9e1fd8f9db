-- ===== src/Db/Pool.antt =====
-- libs/modern_cppdb/include/pool.hpp: the pool of connections. Each call holds the mutex where it
-- uses the list, so it is one step; times are those of the system clock, in one unit. `size_` is a
-- `size_t`.
pub mod Ordered
pub mod Live
pub mod Reach
mod Tests
use new_rojcpp.Prelude.{
  ℕ, ◌+◌, ◌-◌, ◌%◌, ◌^◌, List, [], ◌∷◌, ◌++◌, Option, none, some, true, false, ltb, ◌==◌,
  if◌then◌else◌,
}

-- A connection, and when it was used last.
pub record Conn : Type 0 where
  pub number : ℕ
  pub last_used : ℕ

pub record Pool : Type 0 where
  pub limit : ℕ
  pub size : ℕ
  pub life_time : ℕ
  pub conns : List Conn

-- `size_--` and `size_++`
abbrev pub less : ℕ → ℕ
less n = (n + 2 ^ 64 - 1) % 2 ^ 64

abbrev pub more : ℕ → ℕ
more n = (n + 1) % 2 ^ 64

-- The loop that erases expired connections from the front, and `size_` after it.
unfoldable pub drop_expired : ℕ → ℕ → List Conn → ℕ → List Conn × ℕ
drop_expired life_time now [] size = ([], size)
drop_expired life_time now (c ∷ cs) size =
    let rest = drop_expired life_time now cs (less size) in
    if ltb (c.last_used + life_time) now then rest else (c ∷ cs, size)

-- The connection at the front, if there is one.
unfoldable pub pop_front : Pool → List Conn → ℕ → Option Conn × Pool
pop_front p [] size = (none, record p { conns = []; size = size })
pop_front p (c ∷ cs) size = (some c, record p { conns = cs; size = less size })

pub get : ℕ → Pool → Option Conn × Pool
get now p = elim (p.limit == 0) [
  | true ↦ (none, p)
  | false ↦
      let (conns, size) = drop_expired p.life_time now p.conns p.size in pop_front p conns size
]

-- The loop that pops connections while there are too many.
unfoldable pub pop_extra : ℕ → List Conn → ℕ → List Conn × ℕ
pop_extra limit [] size = ([], size)
pop_extra limit (c ∷ cs) size =
    let rest = pop_extra limit cs (less size) in if ltb limit size then rest else (c ∷ cs, size)

with_conn : Option Conn → List Conn → ℕ → List Conn × ℕ
with_conn none conns size = (conns, size)
with_conn (some c) conns size = (conns ++ c ∷ [], more size)

-- `put`; `gc` puts a null pointer.
pub put : ℕ → Option Conn → Pool → Pool
put now c_in p = elim (p.limit == 0) [
  | true ↦ p
  | false ↦
      let (live, size) = drop_expired p.life_time now p.conns p.size in
      let (all, size') = with_conn c_in live size in
      let (conns, size'') = pop_extra p.limit all size' in record p { conns = conns; size = size'' }
]

pub clear : Pool → Pool
clear p = record p { conns = []; size = 0 }
