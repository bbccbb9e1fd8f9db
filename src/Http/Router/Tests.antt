-- ===== src/Http/Router/Tests.antt =====
-- Runs and instances of the theorems on the router.
use new_rojcpp.Prelude.{◌≡◌, refl, [], ◌∷◌, none, some, true, false, if◌then◌else◌, bytes_beq}
use new_rojcpp.Prelude.Dict.{bytes_eq}
use new_rojcpp.Prelude.Text.{codes}
use new_rojcpp.Http.Outcome.{Exchange, Outcome, Effect, pure, ◌>>=◌}
use new_rojcpp.Http.Response.{set_status}
use new_rojcpp.Http.Response.Status.{StatusType, ContentType}
use new_rojcpp.Http.Router.{
  HttpMethod, Ap, first, invoke, route, register_handler, do_ap_before, for_each_l, call_if,
}
use new_rojcpp.Http.Router.Hooks.{befores, afters, invoke-hooks}
use new_rojcpp.Http.Router.Routes.{has_letter, route-register_handler}

-- Requests that hold nothing.
abbrev blank : Exchange Unit
blank = record {
  req = tt;
  res = record {
    headers = [];
    content = [];
    body_type = ContentType.unknown;
    status = StatusType.init;
    rep_str = [];
    buff = record { raw = none; tot = 0; used = 0 };
    const_response = [];
  };
}

-- A handler and a hook that is not passed.
abbrev answer : Effect Unit Unit
answer x = Outcome.returned tt (record x { res = set_status StatusType.ok x.res })

abbrev login : Ap Unit
login = record {
  before =
      some (λ x. Outcome.returned false (record x { res = set_status StatusType.forbidden x.res }));
  after = none;
}

abbrev log : Ap Unit
log = record { before = none; after = some (pure true) }

-- What the registration for POST does to a PUT request.
route-register_handler_example :
    route
      (register_handler (HttpMethod.post ∷ []) (codes "/a") answer (log ∷ []) [])
      (codes "PUT")
      (codes "/a")
      blank
    ≡ (if bytes_beq (codes "/a") (codes "/a")
        then (if has_letter (first (codes "PUT")) (HttpMethod.post ∷ [])
            then (invoke answer (log ∷ []) >>= λ _. pure true) blank
            else Outcome.returned false blank)
        else route [] (codes "PUT") (codes "/a") blank)
route-register_handler_example =
    route-register_handler (HttpMethod.post ∷ []) (codes "/a") answer (log ∷ []) [] (codes "PUT")
      (codes "/a") blank

stops :
    do_ap_before (log ∷ login ∷ []) blank
    ≡ Outcome.returned false (record blank { res = set_status StatusType.forbidden blank.res })
unfolding do_ap_before for_each_l call_if
stops = refl

invoke-hooks_example :
    invoke answer (log ∷ login ∷ []) blank
    ≡ (befores (log ∷ login ∷ []) >>= λ ok.
          if ok then (answer >>= λ _. afters (log ∷ login ∷ []) >>= λ _. pure tt) else pure tt)
        blank
invoke-hooks_example = invoke-hooks answer (log ∷ login ∷ []) blank
