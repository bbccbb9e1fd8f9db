-- ===== src/Db/Pool/Tests.antt =====
-- Runs and instances of the theorems on the pool.
use new_rojcpp.Prelude.{◌≡◌, refl, [], ◌∷◌, some, arith, length}
use new_rojcpp.Db.Pool.{Conn, Pool, get, put}
use new_rojcpp.Db.Pool.Ordered.{live}
use new_rojcpp.Db.Pool.Live.{IsPool, get-live, front, behind}
use new_rojcpp.Db.Pool.Reach.{Reach, Reach-IsPool, created, closed}

abbrev old : Conn
old = record { number = 1; last_used = 10 }

abbrev new : Conn
new = record { number = 2; last_used = 20 }

abbrev two : Pool
two = record { limit = 2; size = 2; life_time = 5; conns = old ∷ new ∷ [] }

two-IsPool : IsPool 20 two
two-IsPool = record {
  sized = refl;
  bounded = omega arith;
  limit_fits = omega arith;
  ordered = omega arith;
  past = omega arith;
}

get-live_example : get 21 two ≡ (
  front (live 5 21 (old ∷ new ∷ [])),
  record two {
    conns = behind (live 5 21 (old ∷ new ∷ []));
    size = length (behind (live 5 21 (old ∷ new ∷ [])));
  },
)
get-live_example = get-live 20 21 two two-IsPool (omega arith)

one_back :
    Reach 16 600 10
      (put 11 (some old) (record { limit = 16; size = 0; life_time = 600; conns = [] }))
one_back = closed 11 old (omega arith) (created 7)

Reach-IsPool_example :
    IsPool 10 (put 11 (some old) (record { limit = 16; size = 0; life_time = 600; conns = [] }))
Reach-IsPool_example = Reach-IsPool (omega arith) one_back
