-- ===== src/Http/Router/Routes.antt =====
-- Which requests a registration serves: http_router::register_handler and http_router::route.
use new_rojcpp.Prelude.{
  ℕ, zero, suc, ◌-◌, ◌≤◌, ◌<◌, ◌≡◌, refl, ap, ◌∙◌, inl, inr, List, [], ◌∷◌, some, Bool, true, false,
  not, ◌||◌, arith, ltb, ◌==◌, if◌then◌else◌, Bool-cases, replicate, length, bytes_beq,
}
use new_rojcpp.Prelude.Dict.{lookup, lookup-insert, bytes_eq}
use new_rojcpp.Http.Outcome.{Exchange, Outcome, Effect, pure, ◌>>=◌}
use new_rojcpp.Http.Router.{
  HttpMethod, type_to_name, first, at, set_at, fill_methods, get_method_arr, Ap, Invoker, invoke,
  register_handler, route,
}

-- One of the methods begins with this letter.
abbrev pub has_letter : ℕ → List HttpMethod → Bool
has_letter c [] = false
has_letter c (m ∷ ms) = first (type_to_name m) == c || has_letter c ms

letter_range : (m : HttpMethod) → (65 ≤ first (type_to_name m)) × (first (type_to_name m) ≤ 90)
unfolding type_to_name
letter_range m = ground arith

length-set_at : (i c : ℕ) (l : List ℕ) → length (set_at i c l) ≡ length l
length-set_at i c [] = refl
length-set_at zero c (x ∷ l) = refl
length-set_at (suc i) c (x ∷ l) = ap suc (length-set_at i c l)

at-set_at :
    (i j c : ℕ) (l : List ℕ) → i < length l → at i (set_at j c l) ≡ (if j == i then c else at i l)
at-set_at i j c [] h = absurd (omega arith)
at-set_at zero zero c (x ∷ l) h = ground arith
at-set_at zero (suc j) c (x ∷ l) h = ground arith
at-set_at (suc i) zero c (x ∷ l) h = ground arith
at-set_at (suc i) (suc j) c (x ∷ l) h = ground (arith, at-set_at i j c l (omega arith))

at-fill_methods :
    (c : ℕ) (ms : List HttpMethod) (arr : List ℕ)
    → 65 ≤ c
    → c ≤ 90
    → length arr ≡ 26
    → (at (c - 65) (fill_methods ms arr) == 0)
      ≡ (if has_letter c ms then false else at (c - 65) arr == 0)
unfolding fill_methods
at-fill_methods c [] arr h k e = refl
at-fill_methods c (m ∷ ms) arr h k e =
    let n = first (type_to_name m) in
    at-fill_methods c ms (set_at (n - 65) n arr) h k (length-set_at (n - 65) n arr ∙ e)
    ∙ ground (arith, letter_range m, at-set_at (c - 65) (n - 65) n arr (omega (arith, e)))

at-replicate : (i n : ℕ) → at i (replicate n 0) ≡ 0
at-replicate i zero = refl
at-replicate zero (suc n) = refl
at-replicate (suc i) (suc n) = at-replicate i n

at-get_method_arr :
    (c : ℕ) (ms : List HttpMethod)
    → 65 ≤ c
    → c ≤ 90
    → (at (c - 65) (get_method_arr ms) == 0) ≡ not (has_letter c ms)
unfolding get_method_arr
at-get_method_arr c ms h k =
    at-fill_methods c ms (replicate 26 0) h k refl ∙ ground (arith, at-replicate (c - 65) 26)

has_letter-range :
    (c : ℕ) (ms : List HttpMethod) → has_letter c ms ≡ true → (ltb c 65 || ltb 90 c) ≡ false
has_letter-range c [] h = absurd (ground arith)
has_letter-range c (m ∷ ms) h = ground (arith, letter_range m, has_letter-range c ms)

module _ {Req : Type 0} (ms : List HttpMethod) (name : List ℕ) (f : Effect Req Unit) where
  -- What a request for the registered name gets.
  abbrev served : List (Ap Req) → List ℕ → Effect Req Bool
  served aps method x =
      if has_letter (first method) ms
      then (invoke f aps >>= λ _. pure true) x
      else Outcome.returned false x

  route_found :
      (aps : List (Ap Req)) (m : List (List ℕ × Invoker Req)) (method url : List ℕ)
      (x : Exchange Req)
      → lookup url m ≡ some (record { arr = get_method_arr ms; run = invoke f aps })
      → route m method url x ≡ served aps method x
  unfolding route
  route_found aps m method url x e =
      elim (Bool-cases (ltb (first method) 65 || ltb 90 (first method))) [
        | inl out ↦
            let no : has_letter (first method) ms ≡ false =
              ground (arith, out, has_letter-range (first method) ms) in
            rw (e, route, out, no) refl
        | inr within ↦ elim (Bool-cases (has_letter (first method) ms)) [
          | inl has ↦
              let is : (at (first method - 65) (get_method_arr ms) == 0) ≡ false =
                at-get_method_arr (first method) ms (ground arith) (ground arith) ∙ ap not has in
              rw (e, route, within, has, is) refl
          | inr lacks ↦
              let is : (at (first method - 65) (get_method_arr ms) == 0) ≡ true =
                at-get_method_arr (first method) ms (ground arith) (ground arith) ∙ ap not lacks in
              rw (e, route, within, lacks, is) refl
        ]
      ]

  unrouted :
      (url method : List ℕ) (x : Exchange Req) (m' m : List (List ℕ × Invoker Req))
      → lookup url m' ≡ lookup url m
      → route m' method url x ≡ route m method url x
  unfolding route
  unrouted url method x m' m e = rw (route, e) refl

  -- After a registration, whatever was registered before: a request for its name runs the handler
  -- between its hooks and is found when the first letter of its method is that of a registered
  -- method, and is else not found and changes nothing; requests for other names are routed as
  -- before.
  pub route-register_handler :
      (aps : List (Ap Req)) (m : List (List ℕ × Invoker Req)) (method url : List ℕ)
      (x : Exchange Req)
      → route (register_handler ms name f aps m) method url x ≡ (
          if bytes_beq name url
          then (if has_letter (first method) ms
              then (invoke f aps >>= λ _. pure true) x
              else Outcome.returned false x)
          else route m method url x)
  unfolding register_handler
  route-register_handler aps m method url x = elim (Bool-cases (bytes_beq name url)) [
    | inl same ↦
        route_found aps (register_handler ms name f aps m) method url x
          (lookup-insert name url _ m ∙ rw same refl)
        ∙ rw same refl
    | inr differs ↦
        rw differs (unrouted url method x _ m (lookup-insert name url _ m ∙ rw differs refl))
  ]
