-- ===== src/FastCache/History.antt =====
-- The cache over any sequence of calls, against one map from keys to entries.
use new_rojcpp.Prelude.{
  ℕ, ◌+◌, ◌<◌, ◌≡◌, refl, sym, ap, ◌∙◌, List, [], ◌∷◌, Option, none, some, Bool, true, false, not,
  inl, inr, arith, length-replicate, Bool-cases, Option-cases, ◌==◌, if◌then◌else◌,
}
use new_rojcpp.Prelude.Dict.{
  Eq, lookup, insert, erase, retain, IsMap, keep_if, lookup-insert, lookup-erase, lookup-retain,
  insert-IsMap, erase-IsMap, retain-IsMap,
}
use new_rojcpp.FastCache.{
  CacheItem, Shard, new_item, expired, shard_at, with_shard, calc_index, new_cache, set, exists,
  del, new_expire, get, del_expired_keys,
}
use new_rojcpp.FastCache.Shards.{
  IsView, override, with_shard-IsView, override-IsView, calc_index-lt, shard_at-replicate,
}

-- A call, at a time; `checks` is the visit of the thread to one shard.
pub data Call (K V : Type 0) : Type 0 where
  sets : K → V → ℕ → Call K V
  asks : K → Call K V
  deletes : K → Call K V
  renews : K → ℕ → Call K V
  gets : K → Call K V
  checks : ℕ → Call K V

-- What a call answers.
pub data Answer (V : Type 0) : Type 0 where
  done : Answer V
  flag : Bool → Answer V
  count : ℕ → Answer V
  value : Option V → Answer V

module _ {K V : Type 0} ⦃e : Eq K⦄ (hash : K → ℕ) (n : ℕ) where
  unfoldable pub call : ℕ → Call K V → List (Shard K V) → Answer V × List (Shard K V)
  unfolding set exists del new_expire get del_expired_keys
  call now (sets k v d) shards = (done, set hash n now k v d shards)
  call now (asks k) shards = (flag (exists hash n k shards), shards)
  call now (deletes k) shards = let (c, shards') = del hash n k shards in (count c, shards')
  call now (renews k d) shards = (done, new_expire hash n now k d shards)
  call now (gets k) shards = let (o, shards') = get hash n now k shards in (value o, shards')
  call now (checks i) shards = (done, del_expired_keys hash n now i shards)

  -- The answers to calls that are made one after the other.
  unfoldable pub answers : List (ℕ × Call K V) → List (Shard K V) → List (Answer V)
  answers [] shards = []
  answers ((now, c) ∷ calls) shards =
      let (a, shards') = call now c shards in a ∷ answers calls shards'

  -- The same calls on a map. A visit to a shard takes the expired entries of the keys that belong
  -- to it.
  unfoldable pub map_call :
      ℕ → Call K V → (K → Option (CacheItem V)) → Answer V × (K → Option (CacheItem V))
  map_call now (sets k v d) f = (done, override f k (some (new_item now v d)))
  map_call now (asks k) f = (elim (f k) [ none ↦ flag false | some _ ↦ flag true ], f)
  map_call now (deletes k) f = elim (f k) [
    | none ↦ (count 0, f)
    | some _ ↦ (count 1, override f k none)
  ]
  map_call now (renews k d) f = elim (f k) [
    | none ↦ (done, f)
    | some item ↦ (done, override f k (some (record item { expiration = now + d })))
  ]
  map_call now (gets k) f = elim (f k) [
    | none ↦ (value none, f)
    | some item ↦
        if expired now item then (value none, override f k none) else (value (some item.data_), f)
  ]
  map_call now (checks i) f = (
    done,
    λ k. if i == calc_index hash n k then keep_if (λ item. not (expired now item)) (f k) else f k,
  )

  unfoldable pub map_answers : List (ℕ × Call K V) → (K → Option (CacheItem V)) → List (Answer V)
  map_answers [] f = []
  map_answers ((now, c) ∷ calls) f = let (a, f') = map_call now c f in a ∷ map_answers calls f'

  -- A call answers what the map answers, and is seen as the map that it leaves.
  record Simulates (now : ℕ) (c : Call K V) (shards : List (Shard K V))
      (f : K → Option (CacheItem V)) : Type 0 where
    answer : (call now c shards).0 ≡ (map_call now c f).0
    state : IsView hash n (call now c shards).1 (map_call now c f).1

  module _ (positive : 0 < n) (now : ℕ) (shards : List (Shard K V)) (f : K → Option (CacheItem V))
      (v : IsView hash n shards f) where
    shard-IsMap : (k : K) → IsMap (shard_at (calc_index hash n k) shards)
    shard-IsMap k = v.maps (calc_index hash n k) (calc_index-lt hash n positive shards f v k)

    insert-IsView :
        (k : K) (item : CacheItem V)
        → IsView hash n
            (with_shard
              (calc_index hash n k)
              (insert k item (shard_at (calc_index hash n k) shards))
              shards)
            (override f k (some item))
    insert-IsView k item =
        override-IsView hash n positive shards f v k (some item) _
          (insert-IsMap k item (shard_at (calc_index hash n k) shards) (shard-IsMap k))
          (λ j. lookup-insert k j item (shard_at (calc_index hash n k) shards))

    erase-IsView :
        (k : K)
        → IsView hash n
            (with_shard
              (calc_index hash n k)
              (erase k (shard_at (calc_index hash n k) shards))
              shards)
            (override f k none)
    erase-IsView k =
        override-IsView hash n positive shards f v k none _
          (erase-IsMap k (shard_at (calc_index hash n k) shards) (shard-IsMap k))
          (λ j. lookup-erase k j (shard_at (calc_index hash n k) shards))

    retain-IsView :
        (i : ℕ) (p : CacheItem V → Bool)
        → IsView hash n
            (with_shard i (retain p (shard_at i shards)) shards)
            (λ k. if i == calc_index hash n k then keep_if p (f k) else f k)
    retain-IsView i p =
        with_shard-IsView hash n positive shards f v i (retain p (shard_at i shards)) _
          (λ b. retain-IsMap p (shard_at i shards) (v.maps i b))
          (λ k same.
            let here : (i == calc_index hash n k) ≡ true = ground (arith, same) in
            let below : i < n = omega (arith, same, calc_index-lt hash n positive shards f v k) in
            rw here (
              lookup-retain p k (shard_at i shards) (v.maps i below)
              ∙ ap (λ x. keep_if p (lookup k (shard_at x shards))) (sym same)
              ∙ ap (keep_if p) (v.view k)))
          (λ k other.
            let away : (i == calc_index hash n k) ≡ false = ground (arith, other) in rw away refl)

    call-Simulates : (c : Call K V) → Simulates now c shards f
    unfolding call map_call set exists del new_expire get del_expired_keys
    call-Simulates (sets k w d) = record {
      answer = refl;
      state = insert-IsView k (new_item now w d);
    }
    call-Simulates (asks k) = elim (Option-cases (f k)) [
      | inl h ↦
          let l = v.view k ∙ h in record { answer = rw (call, exists, l, map_call, h); state = v }
      | inr (item, h) ↦
          let l = v.view k ∙ h in record { answer = rw (call, exists, l, map_call, h); state = v }
    ]
    call-Simulates (deletes k) = elim (Option-cases (f k)) [
      | inl h ↦
          let l = v.view k ∙ h in
          record {
            answer = rw (call, del, l, map_call, h);
            state = rw (call, del, l, map_call, h) v;
          }
      | inr (item, h) ↦
          let l = v.view k ∙ h in
          record {
            answer = rw (call, del, l, map_call, h);
            state = rw (call, del, l, map_call, h) (erase-IsView k);
          }
    ]
    call-Simulates (renews k d) = elim (Option-cases (f k)) [
      | inl h ↦
          let l = v.view k ∙ h in
          record {
            answer = rw (call, map_call, h);
            state = rw (call, new_expire, l, map_call, h) v;
          }
      | inr (item, h) ↦
          let l = v.view k ∙ h in
          record {
            answer = rw (call, map_call, h);
            state =
                rw (call, new_expire, l, map_call, h)
                  (insert-IsView k (record item { expiration = now + d }));
          }
    ]
    call-Simulates (gets k) = elim (Option-cases (f k)) [
      | inl h ↦
          let l = v.view k ∙ h in
          record {
            answer = rw (call, get, l, map_call, h);
            state = rw (call, get, l, map_call, h) v;
          }
      | inr (item, h) ↦
          let l = v.view k ∙ h in
          elim (Bool-cases (expired now item)) [
            | inl late ↦ record {
              answer = rw (call, get, l, map_call, h, late);
              state = rw (call, get, l, map_call, h, late) (erase-IsView k);
            }
            | inr live ↦ record {
              answer = rw (call, get, l, map_call, h, live);
              state = rw (call, get, l, map_call, h, live) v;
            }
          ]
    ]
    call-Simulates (checks i) = record {
      answer = refl;
      state = retain-IsView i (λ item. not (expired now item));
    }

  answers-IsView :
      (calls : List (ℕ × Call K V)) (shards : List (Shard K V)) (f : K → Option (CacheItem V))
      → 0 < n
      → IsView hash n shards f
      → answers calls shards ≡ map_answers calls f
  unfolding answers map_answers
  answers-IsView [] shards f p v = refl
  answers-IsView ((now, c) ∷ calls) shards f p v =
      let s = call-Simulates p now shards f v c in
      rw s.answer (
        ap (◌∷◌ (map_call now c f).0)
          (answers-IsView calls (call now c shards).1 (map_call now c f).1 p s.state))

  new_cache-IsView : IsView {V = V} hash n (new_cache n) (λ k. none)
  unfolding lookup
  new_cache-IsView = record {
    size = length-replicate n [];
    maps = λ i h. rw (shard_at-replicate n i) tt;
    view = λ k. rw (shard_at-replicate n (calc_index hash n k)) refl;
  }

  -- Whatever calls are made on a new cache, at any times and with the visits of the checking thread
  -- to single shards anywhere between them, they answer what they answer on one map from keys to
  -- entries, for any hash and any number of shards but 0.
  pub answers-map :
      (calls : List (ℕ × Call K V))
      → 0 < n
      → answers calls (new_cache n) ≡ map_answers calls (λ k. none)
  answers-map calls p = answers-IsView calls (new_cache n) (λ k. none) p new_cache-IsView
