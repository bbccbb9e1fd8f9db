-- ===== src/Log/File/Rolling.antt =====
-- What the files hold, over any sequence of writes.
use new_rojcpp.Prelude.{
  ℕ, suc, ◌-◌, ◌*◌, ◌/◌, ◌≡◌, refl, sym, ap, ◌∙◌, List, [], ◌∷◌, ◌++◌, ltb, leb, ◌==◌, inl, inr,
  arith, length, length-append, joined, joined-append, append-nil, append_assoc, Bool-cases,
}
use new_rojcpp.Log.File.{
  LogFile, k_roll_per_seconds, roll_file, file_append, check_period, append_in_lock, new_log_file,
}

-- Writes one after the other, at any times.
pub data Reach (roll_size flush_interval check_every_n : ℕ) : List (List ℕ) → LogFile → Type 0 where
  created :
      (now : ℕ)
      → Reach roll_size flush_interval check_every_n []
          (new_log_file now roll_size flush_interval check_every_n)
  written :
      {texts : List (List ℕ)} {f : LogFile} (now later : ℕ) (bytes : List ℕ)
      → Reach roll_size flush_interval check_every_n texts f
      → Reach roll_size flush_interval check_every_n
          (texts ++ bytes ∷ [])
          (append_in_lock now later bytes f)

-- The files together hold the text, and the size of the current one is known.
pub record Holds (text : List ℕ) (f : LogFile) : Type 0 where
  pub in_order : joined f.closed ++ f.current ≡ text
  pub counted : f.written_bytes ≡ length f.current

roll_file-Holds :
    (now : ℕ) (text : List ℕ) (f : LogFile) → Holds text f → Holds text (roll_file now f)
unfolding roll_file
roll_file-Holds now text f h = elim (Bool-cases (ltb f.last_roll now)) [
  | inl e ↦
      rw (roll_file, e)
        (record {
          in_order =
              append-nil (joined (f.closed ++ f.current ∷ []))
              ∙ joined-append f.closed (f.current ∷ [])
              ∙ ap (◌++◌ (joined f.closed)) (append-nil f.current)
              ∙ h.in_order;
          counted = refl;
        })
  | inr e ↦ rw (roll_file, e) h
]

file_append-Holds :
    (bytes text : List ℕ) (f : LogFile) → Holds text f → Holds (text ++ bytes) (file_append bytes f)
file_append-Holds bytes text f h = record {
  in_order = sym (append_assoc (joined f.closed) f.current bytes) ∙ ap (λ t. t ++ bytes) h.in_order;
  counted = omega (arith, h.counted, length-append f.current bytes);
}

check_period-Holds :
    (now later : ℕ) (text : List ℕ) (f : LogFile)
    → Holds text f
    → Holds text (check_period now later f)
unfolding check_period
check_period-Holds now later text f h =
    elim (Bool-cases (now / k_roll_per_seconds * k_roll_per_seconds == f.start_of_period)) [
      | inr e ↦ rw (check_period, e) (roll_file-Holds later text f h)
      | inl e ↦ elim (Bool-cases (ltb f.flush_interval (now - f.last_flush))) [
        | inl g ↦ rw (check_period, e, g) (record { in_order = h.in_order; counted = h.counted })
        | inr g ↦ rw (check_period, e, g) h
      ]
    ]

append_in_lock-Holds :
    (now later : ℕ) (bytes text : List ℕ) (f : LogFile)
    → Holds text f
    → Holds (text ++ bytes) (append_in_lock now later bytes f)
unfolding append_in_lock
append_in_lock-Holds now later bytes text f h =
    let g = file_append bytes f in
    let k = file_append-Holds bytes text f h in
    elim (Bool-cases (ltb g.roll_size g.written_bytes)) [
      | inl e ↦ rw (append_in_lock, e) (roll_file-Holds later (text ++ bytes) g k)
      | inr e ↦ elim (Bool-cases (leb g.check_every_n (suc g.write_count))) [
        | inl c ↦
            rw (append_in_lock, e, c)
              (check_period-Holds now later (text ++ bytes) (record g { write_count = 0 })
                (record { in_order = k.in_order; counted = k.counted }))
        | inr c ↦ rw (append_in_lock, e, c) (record { in_order = k.in_order; counted = k.counted })
      ]
    ]

-- Whatever is written, at any times and however the files roll: the closed files and the current one
-- hold together exactly the texts that were written, in their order, and the size that is kept is
-- that of the current file.
pub Reach-Holds :
    {roll_size flush_interval check_every_n : ℕ} {texts : List (List ℕ)} {f : LogFile}
    → Reach roll_size flush_interval check_every_n texts f
    → Holds (joined texts) f
Reach-Holds (created now) = record { in_order = refl; counted = refl }
Reach-Holds (written {texts} {f} now later bytes r) =
    let same : joined texts ++ bytes ≡ joined (texts ++ bytes ∷ []) =
      sym (joined-append texts (bytes ∷ []) ∙ ap (◌++◌ (joined texts)) (append-nil bytes)) in
    rw (← same) (append_in_lock-Holds now later bytes (joined texts) f (Reach-Holds r))
