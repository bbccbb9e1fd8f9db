-- ===== src/Judge/Cache/Tests.antt =====
-- Instances of the theorems on the cache of results.
use new_rojcpp.Prelude.{◌≡◌, refl, [], ◌∷◌, none, some, inl, nat_beq, leb, ◌+◌, if◌then◌else◌}
use new_rojcpp.Prelude.Dict.{lookup, nat_eq}
use new_rojcpp.Prelude.Int.{pos, negsuc}
use new_rojcpp.Judge.RwLock.{free, lock_read, lock_write}
use new_rojcpp.Judge.Cache.{Msg, Cache, get, create, new_msg}
use new_rojcpp.Judge.Cache.Contents.{IsFree, Updates, view, until, and_expire, check_expire-create}
use new_rojcpp.Judge.Cache.Leak.{Calls, IsCounted, miss_blocks_writers, here}

abbrev old : Msg
old = new_msg 0 (pos 1) (pos 2) (pos 0) []

abbrev two : Cache
two = record { lock = free; map = (7, old) ∷ (8, old) ∷ [] }

two-IsFree : IsFree two
unfolding lookup
two-IsFree = record { unlocked = refl; distinct = (refl, (refl, tt)) }

check_expire-create_example :
    Updates
      (λ j.
        if nat_beq 7 j
        then (if leb 400_000_000_000 (5 + 300_000_000_000)
            then some (record {
              end_time = 5 + 300_000_000_000;
              point = negsuc 0;
              all_point = pos 2;
              result_code = pos 0;
              res = [];
            })
            else none)
        else until 400_000_000_000 (view two j))
      (and_expire 400_000_000_000 (create 5 7 (negsuc 0) (pos 2) (pos 0) [] two))
check_expire-create_example =
    check_expire-create two two-IsFree 5 400_000_000_000 7 (negsuc 0) (pos 2) (pos 0) []

-- Nobody is in a section; a `get` of a key that is missing leaves the lock held.
abbrev quiet : Calls
quiet = record { threads = record { lock = free; readers = 0; writers = 0 }; lost = 0 }

quiet-IsCounted : IsCounted quiet
unfolding free
quiet-IsCounted = record { reads = refl; writes = refl; alone = inl refl }

abbrev missed : Cache
missed = record two { lock = record { read_cnt = pos 2; write_cnt = pos 0 } }

misses : get 9 two ≡ some (none, missed)
unfolding get lookup lock_read free
misses = refl

miss_blocks_writers_example : lock_write missed.lock ≡ none
miss_blocks_writers_example = miss_blocks_writers 9 two missed quiet-IsCounted refl misses here
