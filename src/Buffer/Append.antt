-- ===== src/Buffer/Append.antt =====
-- response::append_buff (src/http_responese.cpp): the loop that grows the buffer, and the copy.
use new_rojcpp.Prelude.{
  ◌⊎◌, ℕ, zero, suc, ◌+◌, ◌-◌, ◌*◌, ◌^◌, ◌%◌, ◌≤◌, ◌<◌, ◌≡◌, refl, ap, ◌∙◌, List, ◌++◌, Option,
  some, arith, take, drop, length, take-append_of_le, take_all, take-append_add, length-append,
  length-drop, length-take, ltb, Bool-cases, Option-cases, inl, inr, if◌then◌else◌,
}
use new_rojcpp.Buffer.{
  Allocator, Buffer, size_mod, expand_size, left_size, write, grow, append_buff, empty,
  update_used_size,
}
use new_rojcpp.Buffer.Growth.{
  bytes, contents, IsValid, left_size_of_IsValid, memcpy_fits, expand_size-Grown,
  expand_twice_size-Grown,
}

-- `b` grown until `size` bytes are free.
record Roomy (b : Buffer) (size : ℕ) (r : Option Buffer) : Type 0 where
  after : Buffer
  returned : r ≡ some after
  valid : IsValid after
  same : contents after ≡ contents b
  room : after.used + size ≤ after.tot
  used_after : after.used ≡ b.used
  kept : b.tot ≤ after.tot
  limit : (after.tot ≤ b.tot) ⊎ (after.tot ≤ 3 * (b.used + size) + 32768)

-- `r` is `b` with `src` appended.
pub record Appended (b : Buffer) (src : List ℕ) (r : Option Buffer) : Type 0 where
  pub after : Buffer
  pub returned : r ≡ some after
  pub valid : IsValid after
  pub text : contents after ≡ contents b ++ src
  pub used_after : after.used ≡ b.used + length src

module _ (alloc : Allocator) where
  -- Each round takes from what is missing, so the fuel suffices.
  grow-Roomy :
      (fuel size : ℕ) (b : Buffer)
      → IsValid b
      → b.used + size < 2 ^ 62
      → b.used + size - b.tot < fuel
      → Roomy b size (grow alloc fuel size b)
  unfolding grow
  grow-Roomy zero size b v h m = absurd (omega arith)
  grow-Roomy (suc fuel) size b v h m = elim (Bool-cases (ltb (left_size b) size)) [
    | inl more ↦
        let (n, pos, twice, g) =
          expand_twice_size-Grown alloc b v (ground (arith, left_size_of_IsValid b v)) in
        let r =
          grow-Roomy fuel size g.after g.valid (omega (arith, g.used_after))
            (ground (arith, left_size_of_IsValid b v, g.used_after, g.tot_after)) in
        record {
          after = r.after;
          returned = rw (more, grow, g.returned) r.returned;
          valid = r.valid;
          same = r.same ∙ g.same;
          room = r.room;
          used_after = r.used_after ∙ g.used_after;
          kept = omega (arith, r.kept, g.tot_after);
          limit =
              ground (arith, left_size_of_IsValid b v, r.limit, g.tot_after, g.used_after, twice);
        }
    | inr enough ↦ record {
      after = b;
      returned = rw (enough, grow);
      valid = v;
      same = refl;
      room = ground (arith, left_size_of_IsValid b v);
      used_after = refl;
      kept = omega arith;
      limit = inl (omega arith);
    }
  ]

  write_at :
      (b : Buffer) (src mem : List ℕ)
      → IsValid b
      → b.raw ≡ some mem
      → b.used + length src ≤ b.tot
      → (w : Appended b src (write alloc src b)) × (w.after.tot ≡ b.tot)
  unfolding write update_used_size
  write_at b src mem v e h = (
    record {
      after = update_used_size (length src) (record b { raw = some mem' });
      returned = rw (e, write, memcpy_fits mem b.used src (omega (arith, sized_mem)));
      valid = record {
        sized = omega (arith, sized_mem');
        within = omega arith;
        bounded = v.bounded;
      };
      text = rw (e, fits) appended;
      used_after = fits;
    },
    refl,
  )
    where
      mem' : List ℕ
      mem' = take b.used mem ++ (src ++ drop (b.used + length src) mem)

      sized_mem : length mem ≡ b.tot
      sized_mem = omega (arith, ap (λ r. length (bytes r)) e)

      sized_mem' : length mem' ≡ b.tot
      sized_mem' = omega (
        arith,
        sized_mem,
        length-append (take b.used mem) (src ++ drop (b.used + length src) mem),
        length-append src (drop (b.used + length src) mem),
        length-take b.used mem,
        length-drop (b.used + length src) mem,
      )

      fits : (b.used + length src) % size_mod ≡ b.used + length src
      fits = omega arith

      appended : take (b.used + length src) mem' ≡ take b.used mem ++ src
      appended =
          take-append_add b.used (length src) (take b.used mem) _
            (omega (arith, sized_mem, length-take b.used mem))
          ∙ ap (◌++◌ (take b.used mem))
              (take-append_of_le (length src) src _ (omega arith) ∙ take_all (length src) src refl)

  pub write-Appended :
      (b : Buffer) (src : List ℕ)
      → IsValid b
      → b.used + length src ≤ b.tot
      → 0 < b.tot
      → (w : Appended b src (write alloc src b)) × (w.after.tot ≡ b.tot)
  write-Appended b src v h pos = elim (Option-cases b.raw) [
    | inl e ↦ absurd (omega (arith, ap (λ r. length (bytes r)) e))
    | inr (mem, e) ↦ write_at b src mem v e h
  ]

  first_block :
      (b : Buffer)
      → IsValid b
      → b.tot < 2 ^ 62
      → (r : Roomy b 0 (if empty b then expand_size alloc (32 * 1024) b else some b)) × (0
          < r.after.tot)
  unfolding empty
  first_block b v h = elim (Bool-cases (empty b)) [
    | inl e ↦
        let g = expand_size-Grown alloc b (32 * 1024) v (omega arith) in
        rw e (
          record {
            after = g.after;
            returned = g.returned;
            valid = g.valid;
            same = g.same;
            room = omega (arith, g.valid.within);
            used_after = g.used_after;
            kept = omega (arith, g.tot_after);
            limit = ground (arith, g.tot_after);
          },
          omega (arith, g.tot_after),
        )
    | inr e ↦ rw e (
      record {
        after = b;
        returned = refl;
        valid = v;
        same = refl;
        room = omega arith;
        used_after = refl;
        kept = omega arith;
        limit = inl (omega arith);
      },
      ground arith,
    )
  ]

  -- What is appended, and how far the memory has grown.
  pub append_buff_grown :
      (b : Buffer) (src : List ℕ)
      → IsValid b
      → b.used + length src < 2 ^ 62
      → b.tot < 2 ^ 62
      → (w : Appended b src (append_buff alloc src b)) × ((w.after.tot ≤ b.tot)
          ⊎ (w.after.tot ≤ 3 * (b.used + length src) + 32768))
  unfolding append_buff
  append_buff_grown b src v h k =
      let (r1, pos) = first_block b v k in
      let r2 =
        grow-Roomy (suc (length src)) (length src) r1.after r1.valid (omega (arith, r1.used_after))
          (omega (arith, r1.valid.within)) in
      let (w, same) = write-Appended r2.after src r2.valid r2.room (omega (arith, r2.kept)) in
      (
        record {
          after = w.after;
          returned = rw (r1.returned, append_buff, r2.returned) w.returned;
          valid = w.valid;
          text = w.text ∙ ap (λ t. t ++ src) (r2.same ∙ r1.same);
          used_after = omega (arith, w.used_after, r2.used_after, r1.used_after);
        },
        ground (arith, same, r1.limit, r2.limit, r1.used_after),
      )

  -- On a valid buffer, when its memory and what it is to hold are below 2 ^ 62 bytes:
  -- `append_buff` returns, so the loop ends and no byte is written outside the memory; the buffer
  -- is valid again and holds what it held, followed by the new bytes.
  pub append_buff-Appended :
      (b : Buffer) (src : List ℕ)
      → IsValid b
      → b.used + length src < 2 ^ 62
      → b.tot < 2 ^ 62
      → Appended b src (append_buff alloc src b)
  append_buff-Appended b src v h k = (append_buff_grown b src v h k).0
