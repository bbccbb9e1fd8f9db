-- ===== src/FastCache.antt =====
-- include/tools/fastCache.hpp: a cache whose entries expire, in shards. Each call holds the mutex of
-- one shard for all it does, so it is one step; the thread that looks for expired keys takes one
-- shard after the other, which are steps of their own. Times and durations are whole seconds. The
-- hash is std::hash, which is not part of the repository.
pub mod Shards
pub mod History
mod Tests
use new_rojcpp.Prelude.{
  ℕ, zero, suc, ◌+◌, ◌%◌, List, [], ◌∷◌, Option, none, some, Bool, true, false, not, ltb, length,
  replicate, map,
}
use new_rojcpp.Prelude.Dict.{Eq, lookup, insert, erase, retain}

-- `CacheItem`
pub record CacheItem (V : Type 0) : Type 0 where
  pub data_ : V
  pub expiration : ℕ

-- `CacheItem(_d, expired_duration_time)`
abbrev pub new_item : {V : Type 0} → ℕ → V → ℕ → CacheItem V
new_item now val expiration = record { data_ = val; expiration = now + expiration }

-- `CacheItem::expired`
abbrev pub expired : {V : Type 0} → ℕ → CacheItem V → Bool
expired now item = ltb item.expiration now

-- `m_shards[index]`
unfoldable pub shard_at {ℓ} : {A : Type ℓ} → ℕ → List (List A) → List A
shard_at index [] = []
shard_at zero (s ∷ shards) = s
shard_at (suc index) (s ∷ shards) = shard_at index shards

-- What is assigned to the container of a shard.
unfoldable pub with_shard {ℓ} : {A : Type ℓ} → ℕ → List A → List (List A) → List (List A)
with_shard index t [] = []
with_shard zero t (s ∷ shards) = t ∷ shards
with_shard (suc index) t (s ∷ shards) = s ∷ with_shard index t shards

-- A shard's container. A duration that is added is not negative.
abbrev pub Shard : Type 0 → Type 0 → Type 0
Shard K V = List (K × CacheItem V)

abbrev pub calc_index : {K : Type 0} → (K → ℕ) → ℕ → K → ℕ
calc_index hash shard_size key = hash key % shard_size

abbrev pub new_cache : {K V : Type 0} → ℕ → List (Shard K V)
new_cache shard_size = replicate shard_size []

-- The hash and the template's Shard_size, which is not 0.
module _ {K : Type 0} {V : Type 0} ⦃e : Eq K⦄ (hash : K → ℕ) (shard_size : ℕ) where
  unfoldable pub set : ℕ → K → V → ℕ → List (Shard K V) → List (Shard K V)
  set now key val expiration shards =
      let index = calc_index hash shard_size key in
      with_shard index (insert key (new_item now val expiration) (shard_at index shards)) shards

  unfoldable pub exists : K → List (Shard K V) → Bool
  exists key shards = elim (lookup key (shard_at (calc_index hash shard_size key) shards)) [
    | none ↦ false
    | some _ ↦ true
  ]

  -- How many keys are gone, and the cache.
  unfoldable pub del : K → List (Shard K V) → ℕ × List (Shard K V)
  del key shards =
      let index = calc_index hash shard_size key in
      elim (lookup key (shard_at index shards)) [
        | none ↦ (0, shards)
        | some _ ↦ (1, with_shard index (erase key (shard_at index shards)) shards)
      ]

  unfoldable pub new_expire : ℕ → K → ℕ → List (Shard K V) → List (Shard K V)
  new_expire now key expiration shards =
      let index = calc_index hash shard_size key in
      elim (lookup key (shard_at index shards)) [
        | none ↦ shards
        | some item ↦
            with_shard index
              (insert key (record item { expiration = now + expiration }) (shard_at index shards))
              shards
      ]

  unfoldable pub get : ℕ → K → List (Shard K V) → Option V × List (Shard K V)
  get now key shards =
      let index = calc_index hash shard_size key in
      elim (lookup key (shard_at index shards)) [
        | none ↦ (none, shards)
        | some item ↦ elim (expired now item) [
          | true ↦ (none, with_shard index (erase key (shard_at index shards)) shards)
          | false ↦ (some item.data_, shards)
        ]
      ]

  -- `del_expired_keys` of one shard
  unfoldable pub del_expired_keys : ℕ → ℕ → List (Shard K V) → List (Shard K V)
  del_expired_keys now index shards =
      with_shard index (retain (λ item. not (expired now item)) (shard_at index shards)) shards

  -- The rounds of `expired_check_func` over the shards from `index` on.
  unfoldable pub check_from : ℕ → ℕ → ℕ → List (Shard K V) → List (Shard K V)
  check_from now index zero shards = shards
  check_from now index (suc left) shards =
      check_from now (suc index) left (del_expired_keys now index shards)

  unfoldable pub expired_check : ℕ → List (Shard K V) → List (Shard K V)
  expired_check now shards = check_from now 0 shard_size shards

-- `total_size`, when no other call comes in between.
pub total_size : {K V : Type 0} → List (Shard K V) → ℕ
total_size [] = 0
total_size (s ∷ shards) = length s + total_size shards
