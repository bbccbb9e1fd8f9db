-- ===== src/Buffer/Growth.antt =====
-- The invariant of the buffer of include/tools/buffers.h, and what growing keeps.
use new_rojcpp.Prelude.{
  ℕ, ◌+◌, ◌-◌, ◌*◌, ◌^◌, ◌%◌, ◌≤◌, ◌<◌, ◌≡◌, refl, ap, ◌∙◌, List, [], ◌++◌, Option, none, some,
  arith, take, drop, length, take-append_of_le, take_all, length-append, length-drop, ◌==◌,
  Bool-cases, Option-cases, inl, inr, sym,
}
use new_rojcpp.Buffer.{
  Allocator, Buffer, memcpy, size_mod, expand_size, expand_twice_size, left_size,
}

abbrev pub bytes : Option (List ℕ) → List ℕ
bytes none = []
bytes (some m) = m

-- What has been written so far.
abbrev pub contents : Buffer → List ℕ
contents b = take b.used (bytes b.raw)

pub record IsValid (b : Buffer) : Type 0 where
  pub sized : length (bytes b.raw) ≡ b.tot
  pub within : b.used ≤ b.tot
  pub bounded : b.tot < size_mod

pub left_size_of_IsValid : (b : Buffer) → IsValid b → left_size b ≡ b.tot - b.used
unfolding left_size
left_size_of_IsValid b v = ground arith

pub memcpy_fits :
    (dst : List ℕ) (at : ℕ) (src : List ℕ)
    → at + length src ≤ length dst
    → memcpy dst at src ≡ some (take at dst ++ (src ++ drop (at + length src) dst))
unfolding memcpy
memcpy_fits dst at src h = ground arith

pub memcpy_overflow :
    (dst : List ℕ) (at : ℕ) (src : List ℕ) → length dst < at + length src → memcpy dst at src ≡ none
unfolding memcpy
memcpy_overflow dst at src h = ground arith

-- `r` is `b` with `size` more bytes of memory and the same contents.
pub record Grown (b : Buffer) (size : ℕ) (r : Option Buffer) : Type 0 where
  pub after : Buffer
  pub returned : r ≡ some after
  pub valid : IsValid after
  pub same : contents after ≡ contents b
  pub tot_after : after.tot ≡ b.tot + size
  pub used_after : after.used ≡ b.used

module _ (alloc : Allocator) where
  expand_null :
      (b : Buffer) (size : ℕ)
      → IsValid b
      → b.raw ≡ none
      → b.tot + size < size_mod
      → Grown b size (expand_size alloc size b)
  unfolding expand_size
  expand_null b size v e h = record {
    after = record b { raw = some (alloc.allocate ((b.tot + size) % size_mod)); tot = size };
    returned = ground arith;
    valid = record {
      sized = omega (arith, alloc.length-allocate ((b.tot + size) % size_mod), none_tot);
      within = omega (arith, none_tot);
      bounded = omega arith;
    };
    same = no_contents _ ∙ sym (no_contents _);
    tot_after = omega (arith, none_tot);
    used_after = refl;
  }
    where
      none_tot : b.tot ≡ 0
      none_tot = omega (arith, ap (λ r. length (bytes r)) e)

      no_contents : (m : List ℕ) → take b.used m ≡ []
      no_contents m = let e' : b.used ≡ 0 = omega (arith, none_tot) in rw e'

  expand_copy :
      (b : Buffer) (size : ℕ) (old : List ℕ)
      → IsValid b
      → b.raw ≡ some old
      → b.tot + size < size_mod
      → Grown b size (expand_size alloc size b)
  unfolding expand_size
  expand_copy b size old v e h = record {
    after = record b { raw = some mem; tot = (b.tot + size) % size_mod };
    returned = rw (e, expand_size, take_all b.tot old (sym sized_old), copied);
    valid = record {
      sized = omega (
        arith,
        length-append old (drop (0 + length old) tmp),
        length-drop (0 + length old) tmp,
        sized_old,
        sized_tmp,
      );
      within = omega arith;
      bounded = omega arith;
    };
    same = rw e (take-append_of_le b.used old _ (omega (arith, sized_old)));
    tot_after = omega arith;
    used_after = refl;
  }
    where
      tmp : List ℕ
      tmp = alloc.allocate ((b.tot + size) % size_mod)

      mem : List ℕ
      mem = old ++ drop (0 + length old) tmp

      sized_old : length old ≡ b.tot
      sized_old = omega (arith, ap (λ r. length (bytes r)) e)

      sized_tmp : length tmp ≡ b.tot + size
      sized_tmp = omega (arith, alloc.length-allocate ((b.tot + size) % size_mod))

      copied : memcpy tmp 0 old ≡ some mem
      copied = memcpy_fits tmp 0 old (omega (arith, sized_old, sized_tmp))

  pub expand_size-Grown :
      (b : Buffer) (size : ℕ)
      → IsValid b
      → b.tot + size < size_mod
      → Grown b size (expand_size alloc size b)
  expand_size-Grown b size v h = elim (Option-cases b.raw) [
    | inl e ↦ expand_null b size v e h
    | inr (old, e) ↦ expand_copy b size old v e h
  ]

  abbrev pub Doubled : Buffer → Type 0
  Doubled b =
      (size : ℕ) × (0 < size) × (size ≤ 2 * b.tot + 1) × Grown b size (expand_twice_size alloc b)

  pub expand_twice_size-Grown : (b : Buffer) → IsValid b → b.tot < 2 ^ 62 → Doubled b
  unfolding expand_twice_size
  expand_twice_size-Grown b v h = elim (Bool-cases (b.tot == 0)) [
    | inl e ↦ (1, omega arith, omega arith, rw e (expand_size-Grown b 1 v (omega arith)))
    | inr e ↦ (
      (b.tot * 2) % size_mod,
      ground arith,
      omega arith,
      rw e (expand_size-Grown b _ v (omega arith)),
    )
  ]
