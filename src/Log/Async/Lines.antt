-- ===== src/Log/Async/Lines.antt =====
-- What the buffers of the logger and its file hold, whatever the threads do.
use new_rojcpp.Prelude.{
  ℕ, ◌-◌, ◌<◌, ◌≡◌, refl, sym, ap, ◌∙◌, ◌⊎◌, inl, inr, List, [], ◌∷◌, ◌++◌, none, some, true, false,
  arith, ltb, if◌then◌else◌, length, length-append, joined, joined-append, append_assoc, append-nil,
  Bool-cases, take,
}
use new_rojcpp.Log.Async.{
  Logger, initial, buffer_append, append, collect, write_out, as_list, or_new, refilled, remaining,
}
use mathlib.Core.Path.{subst}
use mathlib.Core.Option.{some-injective}

module _ (size : ℕ) where
  -- A line that is as long as a buffer is dropped.
  abbrev pub kept : List ℕ → List ℕ
  kept msg = if ltb (length msg) size then msg else []

  -- Whatever the threads do: the lines that were appended so far, and the state.
  pub data Reach : List ℕ → Logger → Type 0 where
    begin : Reach [] initial
    appended :
        {lines : List ℕ} {s t : Logger} (msg : List ℕ)
        → Reach lines s
        → append size msg s ≡ some t
        → Reach (lines ++ kept msg) t
    collected :
        {lines : List ℕ} {s : Logger} → Reach lines s → s.writing ≡ false → Reach lines (collect s)
    written :
        {lines : List ℕ} {s : Logger} → Reach lines s → s.writing ≡ true → Reach lines (write_out s)

  abbrev pub Phase : Logger → Type 0
  Phase s =
      ((s.writing ≡ false)
        × (s.new_buff_1 ≡ some [])
        × (s.new_buff_2 ≡ some [])
        × (s.to_write ≡ []))
      ⊎ ((s.writing ≡ true)
          × (s.new_buff_1 ≡ none)
          × (0 < length s.to_write)
          × ((s.new_buff_2 ≡ some []) ⊎ ((s.new_buff_2 ≡ none) × (1 < length s.to_write))))

  -- There is a buffer to append to; the file, the buffers to write, the full ones and it hold the
  -- lines, in this order; and the spare buffers come back in time.
  pub record IsLogging (lines : List ℕ) (s : Logger) : Type 0 where
    pub text : List ℕ
    pub current_is : s.current ≡ some text
    pub held : s.file ++ (joined s.to_write ++ (joined s.buffers ++ text)) ≡ lines
    pub next_is : (s.next ≡ some []) ⊎ ((s.next ≡ none) × (0 < length s.buffers))
    pub phase : Phase s

  initial-IsLogging : IsLogging [] initial
  unfolding initial
  initial-IsLogging = record {
    text = [];
    current_is = refl;
    held = refl;
    next_is = inl refl;
    phase = inl (refl, refl, refl, refl);
  }

  collect-IsLogging :
      {lines : List ℕ} (s : Logger)
      → s.writing ≡ false
      → IsLogging lines s
      → IsLogging lines (collect s)
  unfolding collect
  collect-IsLogging s w v = elim v.phase [
    | inr (busy, _, _, _) ↦ absurd (ground arith)
    | inl (_, first, second, nothing) ↦ record {
      text = [];
      current_is = first;
      held =
          ap (λ j. s.file ++ (j ++ (joined s.to_write ++ []))) gathered
          ∙ ap (λ j. s.file ++ ((joined s.buffers ++ v.text) ++ (j ++ []))) (ap joined nothing)
          ∙ ap (◌++◌ s.file) (append-nil (joined s.buffers ++ v.text))
          ∙ ap (λ j. s.file ++ (j ++ (joined s.buffers ++ v.text))) (sym (ap joined nothing))
          ∙ v.held;
      next_is = ground (arith, second, v.next_is);
      phase = ground (
        arith,
        first,
        second,
        v.next_is,
        ap length (ap as_list v.current_is),
        length-append s.buffers (as_list s.current),
      );
    }
  ]
    where
      gathered : joined (s.buffers ++ as_list s.current) ≡ joined s.buffers ++ v.text
      gathered =
          ap (λ c. joined (s.buffers ++ as_list c)) v.current_is
          ∙ joined-append s.buffers (v.text ∷ [])
          ∙ ap (◌++◌ (joined s.buffers)) (append-nil v.text)

  refilled_first : (bs : List (List ℕ)) → 0 < length bs → refilled none (take 2 bs) ≡ some []
  refilled_first [] h = absurd (omega arith)
  refilled_first (b ∷ bs) h = refl

  refilled_second :
      (bs : List (List ℕ)) → 1 < length bs → refilled none (remaining none (take 2 bs)) ≡ some []
  refilled_second [] h = absurd (omega arith)
  refilled_second (b ∷ []) h = absurd (omega arith)
  refilled_second (b ∷ c ∷ bs) h = refl

  second_is :
      (s : Logger)
      → 0 < length s.to_write
      → (s.new_buff_2 ≡ some []) ⊎ ((s.new_buff_2 ≡ none) × (1 < length s.to_write))
      → refilled s.new_buff_2 (remaining none (take 2 s.to_write)) ≡ some []
  second_is s h (inl e) = rw e refl
  second_is s h (inr (e, two)) = rw e (refilled_second s.to_write two)

  write_out-IsLogging :
      {lines : List ℕ} (s : Logger)
      → s.writing ≡ true
      → IsLogging lines s
      → IsLogging lines (write_out s)
  unfolding write_out
  write_out-IsLogging s w v = record {
    text = v.text;
    current_is = v.current_is;
    held = append_assoc s.file (joined s.to_write) (joined s.buffers ++ v.text) ∙ v.held;
    next_is = v.next_is;
    phase = elim v.phase [
      | inl (idle, _, _, _) ↦ absurd (ground arith)
      | inr (_, first, some_buffer, second) ↦ inl (
        refl,
        rw first (refilled_first s.to_write some_buffer),
        rw first (second_is s some_buffer second),
        refl,
      )
    ];
  }

  behind :
      (file pending full text msg : List ℕ)
      → file ++ (pending ++ ((full ++ text) ++ msg)) ≡ (file ++ (pending ++ (full ++ text))) ++ msg
  behind file pending full text msg = simp append_assoc

  buffer_append_empty : (msg : List ℕ) → buffer_append size msg [] ≡ kept msg
  unfolding buffer_append
  buffer_append_empty msg = let e : size - 0 ≡ size = omega arith in rw e refl

  append-IsLogging :
      {lines : List ℕ} (s : Logger) (msg : List ℕ)
      → IsLogging lines s
      → (t : Logger) × (append size msg s ≡ some t) × IsLogging (lines ++ kept msg) t
  unfolding append buffer_append
  append-IsLogging {lines} s msg v = elim (Bool-cases (ltb (length msg) (size - length v.text))) [
    | inl room ↦ (
      record s { current = some (v.text ++ msg) },
      rw (append, v.current_is, room, buffer_append) refl,
      record {
        text = v.text ++ msg;
        current_is = refl;
        held =
            ap (λ l. s.file ++ (joined s.to_write ++ l))
              (sym (append_assoc (joined s.buffers) v.text msg))
            ∙ behind s.file (joined s.to_write) (joined s.buffers) v.text msg
            ∙ ap (λ l. l ++ msg) v.held
            ∙ ap (◌++◌ lines) (sym (all_kept room));
        next_is = v.next_is;
        phase = v.phase;
      },
    )
    | inr full ↦ (
      record s {
        buffers = s.buffers ++ v.text ∷ [];
        current = some (buffer_append size msg (or_new size s.next));
        next = none;
      },
      rw (append, v.current_is, full) refl,
      record {
        text = kept msg;
        current_is =
            ap (λ b. some (buffer_append size msg b)) fresh ∙ ap some (buffer_append_empty msg);
        held =
            ap (λ j. s.file ++ (joined s.to_write ++ (j ++ kept msg))) pushed
            ∙ behind s.file (joined s.to_write) (joined s.buffers) v.text (kept msg)
            ∙ ap (λ l. l ++ kept msg) v.held;
        next_is = inr (refl, omega (arith, length-append s.buffers (v.text ∷ [])));
        phase = v.phase;
      },
    )
  ]
    where
      all_kept : ltb (length msg) (size - length v.text) ≡ true → kept msg ≡ msg
      all_kept room = ground (arith, room)

      fresh : or_new size s.next ≡ []
      fresh = ground (arith, v.next_is)

      pushed : joined (s.buffers ++ v.text ∷ []) ≡ joined s.buffers ++ v.text
      pushed =
          joined-append s.buffers (v.text ∷ []) ∙ ap (◌++◌ (joined s.buffers)) (append-nil v.text)

  -- However the threads interleave: there is always a buffer to append to, so no null pointer is
  -- used, and the file, the buffers on their way to it and the current one hold the appended lines
  -- in their order, without those that are as long as a buffer or longer.
  pub Reach-IsLogging : {lines : List ℕ} {s : Logger} → Reach lines s → IsLogging lines s
  Reach-IsLogging begin = initial-IsLogging
  Reach-IsLogging (appended {lines} {s} {t = u} msg r e) =
      let (t, e', v) = append-IsLogging s msg (Reach-IsLogging r) in
      subst (IsLogging (lines ++ kept msg)) (some-injective t u (sym e' ∙ e)) v
  Reach-IsLogging (collected {s} r w) = collect-IsLogging s w (Reach-IsLogging r)
  Reach-IsLogging (written {s} r w) = write_out-IsLogging s w (Reach-IsLogging r)

  -- In every reachable state `append` returns.
  pub append_returns :
      {lines : List ℕ} {s : Logger} (msg : List ℕ)
      → Reach lines s
      → (t : Logger) × (append size msg s ≡ some t) × Reach (lines ++ kept msg) t
  append_returns {s} msg r =
      let (t, e, _) = append-IsLogging s msg (Reach-IsLogging r) in (t, e, appended msg r e)
