-- ===== src/Http/Router/Hooks.antt =====
-- The hooks around a handler: do_ap_before, do_after and invoke of include/http_route.h.
use new_rojcpp.Prelude.{
  ◌≡◌, refl, sym, ap, ◌∙◌, List, [], ◌∷◌, ◌++◌, Option, none, some, Bool, true, false,
  if◌then◌else◌,
}
use new_rojcpp.Http.Outcome.{Exchange, Outcome, Effect, pure, ◌>>=◌, and_then}
use new_rojcpp.Http.Router.{
  Ap, for_each_l, for_each_r, call_if, do_ap_before, do_after, invoke, if_allowed,
}
use mathlib.Core.List.{reverse, reverse-append}

module _ {Req : Type 0} where
  and_then_assoc :
      {A B C : Type 0} (o : Outcome Req A) (f : A → Effect Req B) (g : B → Effect Req C)
      → and_then (and_then o f) g ≡ and_then o (λ a. f a >>= g)
  and_then_assoc (Outcome.returned a x) f g = refl
  and_then_assoc (Outcome.thrown e x) f g = refl
  and_then_assoc Outcome.undefined f g = refl

  and_then_cong :
      {A B : Type 0} {f g : A → Effect Req B} (o : Outcome Req A)
      → ((a : A) (x : Exchange Req) → f a x ≡ g a x)
      → and_then o f ≡ and_then o g
  and_then_cong (Outcome.returned a x) h = h a x
  and_then_cong (Outcome.thrown e x) h = refl
  and_then_cong Outcome.undefined h = refl

  for_each_l-append :
      (step : Bool → Ap Req → Effect Req Bool) (r : Bool) (outer inner : List (Ap Req))
      (x : Exchange Req)
      → for_each_l step r (outer ++ inner) x
        ≡ and_then (for_each_l step r outer x) (λ r'. for_each_l step r' inner)
  unfolding for_each_l
  for_each_l-append step r [] inner x = refl
  for_each_l-append step r (a ∷ outer) inner x =
      and_then_cong (step r a x) (λ r' y. for_each_l-append step r' outer inner y)
      ∙ sym (and_then_assoc (step r a x) _ _)

  -- Once the flag is false no hook is called.
  each_stopped :
      (get : Ap Req → Option (Effect Req Bool)) (aps : List (Ap Req)) (x : Exchange Req)
      → for_each_l (λ r a. call_if r (get a)) false aps x ≡ Outcome.returned false x
  unfolding for_each_l call_if
  each_stopped get [] x = refl
  each_stopped get (a ∷ aps) x = each_stopped get aps x

  -- Two loops of hooks, of which the second runs if the first returns true.
  both : (Effect Req Bool) → Effect Req Bool → Effect Req Bool
  both f g = f >>= λ ok. if ok then g else pure false

  each-append :
      (get : Ap Req → Option (Effect Req Bool)) (outer inner : List (Ap Req)) (x : Exchange Req)
      → for_each_l (λ r a. call_if r (get a)) true (outer ++ inner) x
        ≡ both
            (for_each_l (λ r a. call_if r (get a)) true outer)
            (for_each_l (λ r a. call_if r (get a)) true inner)
            x
  unfolding both
  each-append get outer inner x =
      for_each_l-append (λ r a. call_if r (get a)) true outer inner x
      ∙ and_then_cong (for_each_l (λ r a. call_if r (get a)) true outer x) (λ ok y. behind ok y)
    where
      behind :
          (ok : Bool) (y : Exchange Req)
          → for_each_l (λ r a. call_if r (get a)) ok inner y
            ≡ (if ok then for_each_l (λ r a. call_if r (get a)) true inner else pure false) y
      behind true y = refl
      behind false y = each_stopped get inner y

  -- `before` hooks run from the left, and those behind one that returns false do not run.
  do_ap_before-append :
      (outer inner : List (Ap Req)) (x : Exchange Req)
      → do_ap_before (outer ++ inner) x ≡ both (do_ap_before outer) (do_ap_before inner) x
  unfolding do_ap_before
  do_ap_before-append outer inner x = each-append (λ a. a.before) outer inner x

  -- `after` hooks run from the right.
  do_after-append :
      (outer inner : List (Ap Req)) (x : Exchange Req)
      → do_after (outer ++ inner) x ≡ both (do_after inner) (do_after outer) x
  unfolding do_after for_each_r
  do_after-append outer inner x =
      ap (λ l. for_each_l (λ r a. call_if r a.after) true l x) (reverse-append outer inner)
      ∙ each-append (λ a. a.after) (reverse inner) (reverse outer) x

  -- The handler and the `after` hooks, inside hooks that all returned true.
  abbrev inside : Effect Req Unit → List (Ap Req) → List (Ap Req) → Effect Req Unit
  inside f outer inner = f >>= λ _. both (do_after inner) (do_after outer) >>= λ _. pure tt

  run_inside :
      (f : Effect Req Unit) (outer inner : List (Ap Req)) (x : Exchange Req)
      → (f >>= λ _. do_after (outer ++ inner) >>= λ _. pure tt) x ≡ inside f outer inner x
  run_inside f outer inner x =
      and_then_cong (f x)
        (λ _ y. ap (λ o. and_then o (λ _. pure tt)) (do_after-append outer inner y))

  -- The hooks nest: all `before` hooks of the outer ones run before those of the inner ones, then
  -- the handler, then the `after` hooks of the inner ones and at last those of the outer ones; what
  -- follows a hook that returns false, or anything that throws, does not run.
  pub invoke-append :
      (f : Effect Req Unit) (outer inner : List (Ap Req)) (x : Exchange Req)
      → invoke f (outer ++ inner) x
        ≡ (do_ap_before outer >>= λ ok.
              if ok
              then (do_ap_before inner >>= λ ok'.
                  if ok'
                  then (f >>= λ _.
                      (do_after inner >>= λ ok''. if ok'' then do_after outer else pure false)
                      >>= λ _. pure tt)
                  else pure tt)
              else pure tt)
            x
  unfolding invoke both if_allowed
  invoke-append f outer inner x =
      ap (λ o. and_then o (if_allowed f (outer ++ inner))) (do_ap_before-append outer inner x)
      ∙ and_then_assoc (do_ap_before outer x) _ _
      ∙ and_then_cong (do_ap_before outer x) (λ ok y. first_done ok y)
    where
      all_done :
          (ok : Bool) (y : Exchange Req)
          → if_allowed f (outer ++ inner) ok y ≡ (if ok then inside f outer inner else pure tt) y
      all_done true y = run_inside f outer inner y
      all_done false y = refl

      first_done :
          (ok : Bool) (y : Exchange Req)
          → ((if ok then do_ap_before inner else pure false) >>= if_allowed f (outer ++ inner)) y
            ≡ (if ok
                  then (do_ap_before inner >>= λ ok'. if ok' then inside f outer inner else pure tt)
                  else pure tt)
                y
      first_done true y = and_then_cong (do_ap_before inner y) (λ ok' z. all_done ok' z)
      first_done false y = refl

  -- One hook: nothing, which lets through, or its function.
  abbrev pub hook : Option (Effect Req Bool) → Effect Req Bool
  hook none = pure true
  hook (some f) = f

  -- `g` where `f` returned true.
  abbrev pub then_if : Effect Req Bool → Effect Req Bool → Effect Req Bool
  then_if f g = f >>= λ ok. if ok then g else pure false

  -- All `before` functions, the first hook's first, and all `after` functions, the first hook's last,
  -- up to one that returns false.
  abbrev pub befores : List (Ap Req) → Effect Req Bool
  befores [] = pure true
  befores (a ∷ aps) = then_if (hook a.before) (befores aps)

  abbrev pub afters : List (Ap Req) → Effect Req Bool
  afters [] = pure true
  afters (a ∷ aps) = then_if (afters aps) (hook a.after)

  -- The loop over one hook.
  each_one :
      (get : Ap Req → Option (Effect Req Bool)) (a : Ap Req) (x : Exchange Req)
      → for_each_l (λ r b. call_if r (get b)) true (a ∷ []) x ≡ hook (get a) x
  unfolding for_each_l call_if
  each_one get a x = called (get a)
    where
      and_then_pure : (o : Outcome Req Bool) → and_then o (λ r. pure r) ≡ o
      and_then_pure (Outcome.returned r y) = refl
      and_then_pure (Outcome.thrown e y) = refl
      and_then_pure Outcome.undefined = refl

      called : (f : Option (Effect Req Bool)) → and_then (call_if true f x) (λ r. pure r) ≡ hook f x
      called none = refl
      called (some f) = and_then_pure (f x)

  then_cong :
      (f f' : Effect Req Bool) {g g' : Effect Req Bool} (x : Exchange Req)
      → f x ≡ f' x
      → ((y : Exchange Req) → g y ≡ g' y)
      → both f g x ≡ then_if f' g' x
  unfolding both
  then_cong f f' {g} {g'} x e h =
      ap (λ o. and_then o (λ ok. if ok then g else pure false)) e
      ∙ and_then_cong (f' x) (λ ok y. behind ok y)
    where
      behind :
          (ok : Bool) (y : Exchange Req)
          → (if ok then g else pure false) y ≡ (if ok then g' else pure false) y
      behind true y = h y
      behind false y = refl

  do_ap_before-befores :
      (aps : List (Ap Req)) (x : Exchange Req) → do_ap_before aps x ≡ befores aps x
  unfolding do_ap_before for_each_l
  do_ap_before-befores [] x = refl
  do_ap_before-befores (a ∷ aps) x =
      do_ap_before-append (a ∷ []) aps x
      ∙ then_cong (do_ap_before (a ∷ [])) (hook a.before) x (each_one (λ b. b.before) a x)
          (λ y. do_ap_before-befores aps y)

  do_after-afters : (aps : List (Ap Req)) (x : Exchange Req) → do_after aps x ≡ afters aps x
  unfolding do_after for_each_r for_each_l
  do_after-afters [] x = refl
  do_after-afters (a ∷ aps) x =
      do_after-append (a ∷ []) aps x
      ∙ then_cong (do_after aps) (afters aps) x (do_after-afters aps x)
          (λ y. each_one (λ b. b.after) a y)

  -- Around a handler, each hook's `before` function runs, the first hook's first; if all of them
  -- return true the handler runs and then each hook's `after` function, the first hook's last, up to
  -- one that returns false. A hook without the function lets through, what follows a `before` that
  -- returns false does not run, and what is thrown ends the call.
  pub invoke-hooks :
      (f : Effect Req Unit) (aps : List (Ap Req)) (x : Exchange Req)
      → invoke f aps x
        ≡ (befores aps >>= λ ok. if ok then (f >>= λ _. afters aps >>= λ _. pure tt) else pure tt) x
  unfolding invoke if_allowed
  invoke-hooks f aps x =
      ap (λ o. and_then o (if_allowed f aps)) (do_ap_before-befores aps x)
      ∙ and_then_cong (befores aps x) (λ ok y. allowed ok y)
    where
      allowed :
          (ok : Bool) (y : Exchange Req)
          → if_allowed f aps ok y
            ≡ (if ok then (f >>= λ _. afters aps >>= λ _. pure tt) else pure tt) y
      allowed true y =
          and_then_cong (f y) (λ _ z. ap (λ o. and_then o (λ _. pure tt)) (do_after-afters aps z))
      allowed false y = refl

  -- Where a `before` hook of the first ones returned false, neither the handler nor any other hook
  -- runs: the exchange stays as those hooks left it.
  pub invoke_stopped :
      (f : Effect Req Unit) (outer inner : List (Ap Req)) (x y : Exchange Req)
      → do_ap_before outer x ≡ Outcome.returned false y
      → invoke f (outer ++ inner) x ≡ Outcome.returned tt y
  invoke_stopped f outer inner x y e = invoke-append f outer inner x ∙ rw e refl
