-- ===== src/Http/Session.antt =====
-- src/http_session.cpp, and of include/server.h the handler that server::init sets: a request is
-- routed and answered. The loops of server::deal, which read and send, are in Deal.
pub mod Answers
pub mod Deal
pub mod Reading
pub mod Sending
mod Tests
use new_rojcpp.Prelude.{
  ℕ, zero, suc, ◌+◌, ◌*◌, List, [], ◌∷◌, ◌++◌, Option, none, some, Bool, true, false, ◌==◌, ltb,
  if◌then◌else◌, length, take, drop,
}
use new_rojcpp.Prelude.Text.{codes}
use new_rojcpp.Buffer.{
  Allocator, Buffer, empty, left_size, expand_size, expand_twice_size, update_used_size, write,
}
use new_rojcpp.Http.Outcome.{Exchange, Outcome, Exception, Effect, pure, ◌>>=◌}
use new_rojcpp.Http.Request.{
  ParseRet, Phr, Request, parse_header, has_body, get_content_type, set_content_type,
}
use new_rojcpp.Http.Response.{
  Response, set_status, set_status_and_content, set_status_and_literal, send_not_found,
}
use new_rojcpp.Http.Response.Status.{StatusType, ContentType}
use new_rojcpp.Http.Router.{Invoker, route}

-- http_session::req_buff: the buffer in which there is room to read.
pub req_buff : Allocator → Buffer → Option Buffer
req_buff alloc b = elim (if empty b then expand_size alloc (1024 * 1024) b else some b) [
  | none ↦ none
  | some b' ↦ if ltb 0 (left_size b') then some b' else expand_twice_size alloc b'
]

module _ (alloc : Allocator) (routes : List (List ℕ × Invoker Request)) where
  -- A text set on the response, after which the lambda returns false.
  fail_with : Option Response → Effect Request Bool
  fail_with none x = Outcome.undefined
  fail_with (some res) x = Outcome.returned false (record x { res = res })

  -- The `catch` clauses of `http_handle_check_`.
  caught : Exception → Effect Request Bool
  caught (Exception.std_exception what) x =
      fail_with
        (set_status_and_content alloc StatusType.internal_server_error ContentType.string
          (what ++ codes " exception in business function") x.res)
        x
  caught Exception.other x =
      fail_with
        (set_status_and_literal alloc StatusType.internal_server_error ContentType.string
          (codes "unknown exception business function") x.res)
        x

  pub http_handle_check : Effect Request Bool
  http_handle_check x = elim (route routes x.req.method x.req.path x) [
    | Outcome.returned true x' ↦ Outcome.returned true x'
    | Outcome.returned false x' ↦
        Outcome.returned false (record x' { res = set_status StatusType.not_found x'.res })
    | Outcome.thrown e x' ↦ caught e x'
    | Outcome.undefined ↦ Outcome.undefined
  ]

  -- http_session::route
  pub session_route : Effect Request Unit
  session_route = http_handle_check >>= λ found.
      λ x. Outcome.returned tt (if found then x else record x { res = send_not_found x.res })

  is_text : ContentType → Bool
  is_text ContentType.string = true
  is_text ContentType.json = true
  is_text ContentType.unknown = true
  is_text _ = false

  -- http_session::handle_read, which `process` calls; `handle_string_body` does nothing.
  pub handle_read : Effect Request Unit
  handle_read x =
      if has_body x.req
      then (let type = get_content_type x.req in
          let x' : Exchange Request = record x { req = set_content_type type x.req } in
          if is_text type
          then session_route x'
          else Outcome.thrown (Exception.std_exception (codes "not support content-type")) x')
      else session_route x
