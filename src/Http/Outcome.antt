-- ===== src/Http/Outcome.antt =====
-- What a function that takes the request and the response by reference ends with.
use new_rojcpp.Prelude.{ℕ, List}
use new_rojcpp.Http.Response.{Response}

-- The request's type is a parameter: the router and the session hand it on.
pub record Exchange (Req : Type 0) : Type 0 where
  pub req : Req
  pub res : Response

-- What is thrown: a `std::exception` with its text, or anything else.
pub data Exception : Type 0 where
  std_exception : List ℕ → Exception
  other : Exception

pub data Outcome (Req : Type 0) (A : Type 0) : Type 0 where
  returned : A → Exchange Req → Outcome Req A
  thrown : Exception → Exchange Req → Outcome Req A
  undefined : Outcome Req A

abbrev pub Effect : Type 0 → Type 0 → Type 0
Effect Req A = Exchange Req → Outcome Req A

abbrev pub pure : {Req A : Type 0} → A → Effect Req A
pure a x = Outcome.returned a x

abbrev pub and_then : {Req A B : Type 0} → Outcome Req A → (A → Effect Req B) → Outcome Req B
and_then (Outcome.returned a x) f = f a x
and_then (Outcome.thrown e x) f = Outcome.thrown e x
and_then Outcome.undefined f = Outcome.undefined

infixl 5 ◌>>=◌
abbrev pub ◌>>=◌ : {Req A B : Type 0} → Effect Req A → (A → Effect Req B) → Effect Req B
◌>>=◌ m f x = and_then (m x) f
