-- ===== src/Http/Session/Sending.antt =====
-- The sending loop of server::deal.
use new_rojcpp.Prelude.{
  ℕ, ◌-◌, ◌≤◌, ◌≡◌, refl, sym, ap, ◌∙◌, inl, inr, List, [], ◌∷◌, ◌++◌, false, arith, length, take,
  drop, length-drop, take-drop, total, ArePositive, append_assoc, append-nil, ◌==◌, Bool-cases,
}
use new_rojcpp.Http.Session.Deal.{send_loop}

-- However the calls cut it, what is sent and what is left make up the text.
sent-left : (calls t : List ℕ) → (send_loop calls t).0 ++ (send_loop calls t).1 ≡ t
unfolding send_loop
sent-left [] t = refl
sent-left (n ∷ calls) t = elim (Bool-cases (n == 0)) [
  | inl e ↦ rw (send_loop, e) refl
  | inr e ↦ elim (Bool-cases (length t - n == 0)) [
    | inl last ↦ rw (send_loop, e, last) (take-drop n t)
    | inr more ↦
        rw (send_loop, e, more)
          (append_assoc (take n t) _ _
            ∙ ap (◌++◌ (take n t)) (sent-left calls (drop n t))
            ∙ take-drop n t)
  ]
]

nil_of_length : (l : List ℕ) → length l ≡ 0 → l ≡ []
nil_of_length [] h = refl
nil_of_length (x ∷ l) h = absurd (omega arith)

-- When every call takes something and together they take enough, nothing is left.
none_left :
    (calls t : List ℕ) → ArePositive calls → length t ≤ total calls → (send_loop calls t).1 ≡ []
unfolding send_loop
none_left [] t p h = nil_of_length t (omega arith)
none_left (n ∷ calls) t p h =
    let e : (n == 0) ≡ false = ground arith in
    elim (Bool-cases (length t - n == 0)) [
      | inl last ↦
          rw (send_loop, e, last) (nil_of_length (drop n t) (ground (arith, length-drop n t)))
      | inr more ↦
          rw (send_loop, e, more) (none_left calls (drop n t) p.1 (omega (arith, length-drop n t)))
    ]

-- When every call of `async_send` takes something and together they take at least the length of
-- the text, the sending loop sends exactly the text, in order, and leaves nothing.
pub send_loop-text :
    (calls t : List ℕ)
    → ArePositive calls
    → length t ≤ total calls
    → ((send_loop calls t).0 ≡ t) × ((send_loop calls t).1 ≡ [])
send_loop-text calls t p h =
    let e = none_left calls t p h in
    (sym (append-nil _) ∙ ap (◌++◌ (send_loop calls t).0) (sym e) ∙ sent-left calls t, e)
