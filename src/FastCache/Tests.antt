-- ===== src/FastCache/Tests.antt =====
-- Runs and instances of the theorems on the sharded cache.
use new_rojcpp.Prelude.{ℕ, ◌≡◌, refl, List, [], ◌∷◌, none, true, false, arith}
use new_rojcpp.Prelude.Dict.{lookup, insert, erase, retain, nat_eq}
use new_rojcpp.FastCache.{new_cache, shard_at, with_shard}
use new_rojcpp.FastCache.History.{
  Call, call, sets, asks, deletes, renews, gets, checks, done, flag, count, value, answers,
  map_answers, answers-map,
}

abbrev same : ℕ → ℕ
same k = k

-- An entry that is out of date is still there until it is read or its shard is visited.
abbrev calls : List (ℕ × Call ℕ ℕ)
calls =
    (10, sets 5 50 3)
    ∷ (11, sets 7 70 9)
    ∷ (14, asks 5)
    ∷ (14, gets 5)
    ∷ (14, asks 5)
    ∷ (15, renews 7 1)
    ∷ (17, checks 1)
    ∷ (17, deletes 7)
    ∷ []

runs :
    answers same 3 calls (new_cache 3)
    ≡ done ∷ done ∷ flag true ∷ value none ∷ flag false ∷ done ∷ done ∷ count 0 ∷ []
unfolding answers lookup insert erase retain shard_at with_shard call
runs = refl

answers-map_example : answers same 3 calls (new_cache 3) ≡ map_answers same 3 calls (λ k. none)
answers-map_example = answers-map same 3 calls (omega arith)
