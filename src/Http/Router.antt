-- ===== src/Http/Router.antt =====
-- include/http_route.h, with get_method_arr, for_each_l and for_each_r of include/tools/utils.hpp:
-- which handler runs for a request, and the hooks around it.
pub mod Hooks
pub mod Routes
mod Tests
use new_rojcpp.Prelude.{
  ℕ, zero, suc, ◌+◌, ◌-◌, List, [], ◌∷◌, Option, none, some, Bool, true, false, not, ◌||◌, ltb,
  ◌==◌, if◌then◌else◌, replicate,
}
use new_rojcpp.Prelude.Dict.{lookup, insert, bytes_eq}
use new_rojcpp.Prelude.Text.{codes}
use new_rojcpp.Http.Outcome.{Exchange, Outcome, Effect, pure, ◌>>=◌}
use mathlib.Core.List.{reverse}

-- enum class http_method, but UNKNOW, for which there is no `type_to_name`.
pub data HttpMethod : Type 0 where
  del get head post put connect options trace : HttpMethod

unfoldable pub type_to_name : HttpMethod → List ℕ
type_to_name HttpMethod.del = codes "DELETE"
type_to_name HttpMethod.get = codes "GET"
type_to_name HttpMethod.head = codes "HEAD"
type_to_name HttpMethod.post = codes "POST"
type_to_name HttpMethod.put = codes "PUT"
type_to_name HttpMethod.connect = codes "CONNECT"
type_to_name HttpMethod.options = codes "OPTIONS"
type_to_name HttpMethod.trace = codes "TRACE"

-- `s[0]`
abbrev pub first : List ℕ → ℕ
first [] = 0
first (c ∷ cs) = c

-- `arr[i]` and `arr[i] = c`
abbrev pub at : ℕ → List ℕ → ℕ
at i [] = 0
at zero (x ∷ xs) = x
at (suc i) (x ∷ xs) = at i xs

abbrev pub set_at : ℕ → ℕ → List ℕ → List ℕ
set_at i c [] = []
set_at zero c (x ∷ xs) = c ∷ xs
set_at (suc i) c (x ∷ xs) = x ∷ set_at i c xs

fill_methods : List HttpMethod → List ℕ → List ℕ
fill_methods [] arr = arr
fill_methods (m ∷ ms) arr =
    fill_methods ms (set_at (first (type_to_name m) - 65) (first (type_to_name m)) arr)

pub get_method_arr : List HttpMethod → List ℕ
get_method_arr ms = fill_methods ms (replicate 26 0)

-- A hook that has `before`, `after`, both or none.
pub record Ap (Req : Type 0) : Type 0 where
  pub before : Option (Effect Req Bool)
  pub after : Option (Effect Req Bool)

-- The letters of the methods that are served, and what runs.
pub record Invoker (Req : Type 0) : Type 0 where
  pub arr : List ℕ
  pub run : Effect Req Unit

module _ {Req : Type 0} where
  -- The loops over the tuple of hooks: `step` gets the flag `r`, and gives its new value.
  for_each_l : (Bool → Ap Req → Effect Req Bool) → Bool → List (Ap Req) → Effect Req Bool
  for_each_l step r [] = pure r
  for_each_l step r (ap ∷ aps) = step r ap >>= λ r'. for_each_l step r' aps

  for_each_r : (Bool → Ap Req → Effect Req Bool) → Bool → List (Ap Req) → Effect Req Bool
  for_each_r step r aps = for_each_l step r (reverse aps)

  call_if : Bool → Option (Effect Req Bool) → Effect Req Bool
  call_if false f = pure false
  call_if true none = pure true
  call_if true (some f) = f

  pub do_ap_before : List (Ap Req) → Effect Req Bool
  do_ap_before aps = for_each_l (λ r ap. call_if r ap.before) true aps

  pub do_after : List (Ap Req) → Effect Req Bool
  do_after aps = for_each_r (λ r ap. call_if r ap.after) true aps

  -- The rest of `invoke`, with what `do_ap_before` returned.
  if_allowed : Effect Req Unit → List (Ap Req) → Bool → Effect Req Unit
  if_allowed f aps false = pure tt
  if_allowed f aps true = f >>= λ _. do_after aps >>= λ _. pure tt

  pub invoke : Effect Req Unit → List (Ap Req) → Effect Req Unit
  invoke f aps = do_ap_before aps >>= if_allowed f aps

  -- `register_handler`, and `register_nonmember_func` that it calls; without methods the array is
  -- all zero, as `get_method_arr` of none is.
  pub register_handler :
      List HttpMethod
      → List ℕ
      → Effect Req Unit
      → List (Ap Req)
      → List (List ℕ × Invoker Req)
      → List (List ℕ × Invoker Req)
  register_handler ms raw_name f aps m =
      insert raw_name (record { arr = get_method_arr ms; run = invoke f aps }) m

  -- A request's method is not empty.
  unfoldable pub route : List (List ℕ × Invoker Req) → List ℕ → List ℕ → Effect Req Bool
  route m method url = elim (lookup url m) [
    | none ↦ pure false
    | some pair ↦ elim (ltb (first method) 65 || ltb 90 (first method)) [
      | true ↦ pure false
      | false ↦ elim (at (first method - 65) pair.arr == 0) [
        | true ↦ pure false
        | false ↦ pair.run >>= λ _. pure true
      ]
    ]
  ]
