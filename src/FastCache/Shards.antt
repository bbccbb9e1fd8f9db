-- ===== src/FastCache/Shards.antt =====
-- The shards of the cache, seen as one map.
use new_rojcpp.Prelude.{
  ℕ, zero, suc, ◌<◌, ◌≡◌, ◌≢◌, refl, sym, ap, ◌∙◌, List, [], ◌∷◌, Option, inl, inr, arith, length,
  replicate, Bool-cases, ◌==◌, if◌then◌else◌,
}
use new_rojcpp.Prelude.Dict.{Eq, lookup, IsMap}
use new_rojcpp.FastCache.{CacheItem, Shard, shard_at, with_shard, calc_index}

module _ {ℓ} {A : Type ℓ} where
  length-with_shard :
      (i : ℕ) (t : List A) (shards : List (List A)) → length (with_shard i t shards) ≡ length shards
  unfolding with_shard
  length-with_shard i t [] = refl
  length-with_shard zero t (s ∷ shards) = refl
  length-with_shard (suc i) t (s ∷ shards) = ap suc (length-with_shard i t shards)

  shard_at-with_shard :
      (i j : ℕ) (t : List A) (shards : List (List A))
      → j < length shards
      → shard_at j (with_shard i t shards) ≡ (if i == j then t else shard_at j shards)
  unfolding with_shard shard_at
  shard_at-with_shard i j t [] h = absurd (omega arith)
  shard_at-with_shard zero zero t (s ∷ shards) h = refl
  shard_at-with_shard zero (suc j) t (s ∷ shards) h = ground arith
  shard_at-with_shard (suc i) zero t (s ∷ shards) h = ground arith
  shard_at-with_shard (suc i) (suc j) t (s ∷ shards) h =
      ground (arith, shard_at-with_shard i j t shards (omega arith))

  pub shard_at-replicate : (n i : ℕ) → ◌≡◌ {A = List A} (shard_at i (replicate n [])) []
  unfolding shard_at
  shard_at-replicate zero i = refl
  shard_at-replicate (suc n) zero = refl
  shard_at-replicate (suc n) (suc i) = shard_at-replicate n i

-- The entry of one key, replaced.
abbrev pub override :
    {K V : Type 0} ⦃e : Eq K⦄
    → (K → Option (CacheItem V))
    → K
    → Option (CacheItem V)
    → K
    → Option (CacheItem V)
override ⦃e⦄ f k o j = if e.beq k j then o else f j

-- Every shard is a map, and a key's entry stands in the shard of the key.
pub record IsView {K V : Type 0} ⦃e : Eq K⦄ (hash : K → ℕ) (n : ℕ) (shards : List (Shard K V))
    (f : K → Option (CacheItem V)) : Type 0 where
  pub size : length shards ≡ n
  pub maps : (i : ℕ) → i < n → IsMap (shard_at i shards)
  pub view : (k : K) → lookup k (shard_at (calc_index hash n k) shards) ≡ f k

module _ {K V : Type 0} ⦃e : Eq K⦄ (hash : K → ℕ) (n : ℕ) (positive : 0 < n)
    (shards : List (Shard K V)) (f : K → Option (CacheItem V)) (v : IsView hash n shards f) where
  pub calc_index-lt : (k : K) → calc_index hash n k < n
  calc_index-lt k = omega (arith, positive)

  -- A shard gives way to a map that looks like `g` on the shard's keys, and `g` like `f` on the others.
  pub with_shard-IsView :
      (i : ℕ) (t : Shard K V) (g : K → Option (CacheItem V))
      → (i < n → IsMap t)
      → ((k : K) → calc_index hash n k ≡ i → lookup k t ≡ g k)
      → ((k : K) → calc_index hash n k ≢ i → f k ≡ g k)
      → IsView hash n (with_shard i t shards) g
  with_shard-IsView i t g m inside outside = record {
    size = length-with_shard i t shards ∙ v.size;
    maps = λ j b. elim (Bool-cases (i == j)) [
      | inl same ↦
          rw (shard_at-with_shard i j t shards (omega (arith, b, v.size)), same)
            (m (ground (arith, same, b)))
      | inr other ↦
          rw (shard_at-with_shard i j t shards (omega (arith, b, v.size)), other) (v.maps j b)
    ];
    view = λ k. elim (Bool-cases (i == calc_index hash n k)) [
      | inl same ↦
          rw (shard_at-with_shard i (calc_index hash n k) t shards (below k), same)
            (inside k (ground (arith, same)))
      | inr other ↦
          rw (shard_at-with_shard i (calc_index hash n k) t shards (below k), other)
            (v.view k ∙ outside k (ground (arith, other)))
    ];
  }
    where
      below : (k : K) → calc_index hash n k < length shards
      below k = omega (arith, calc_index-lt k, v.size)

  pub override-IsView :
      (k : K) (o : Option (CacheItem V)) (t : Shard K V)
      → IsMap t
      → ((j : K)
          → lookup j t
            ≡ (if e.beq k j then o else lookup j (shard_at (calc_index hash n k) shards)))
      → IsView hash n (with_shard (calc_index hash n k) t shards) (override f k o)
  override-IsView k o t m looks =
      with_shard-IsView (calc_index hash n k) t (override f k o) (λ b. m)
        (λ j same.
          looks j
          ∙ ap (λ i. if e.beq k j then o else lookup j (shard_at i shards)) (sym same)
          ∙ ap (λ x. if e.beq k j then o else x) (v.view j))
        (λ j other. elim (Bool-cases (e.beq k j)) [
          | inl b ↦ absurd (other (ap (calc_index hash n) (sym ((e.beq_iff k j).0 b))))
          | inr b ↦ rw b refl
        ])
