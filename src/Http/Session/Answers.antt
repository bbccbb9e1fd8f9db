-- ===== src/Http/Session/Answers.antt =====
-- What a client gets for a request: http_session::route, around the handler of server::init.
use new_rojcpp.Prelude.{ℕ, ◌^◌, ◌<◌, ◌≡◌, refl, List, ◌++◌, false, arith, length}
use new_rojcpp.Prelude.Text.{codes}
use new_rojcpp.Prelude.Decimal.{digits}
use new_rojcpp.Buffer.{Allocator}
use new_rojcpp.Buffer.Growth.{IsValid}
use new_rojcpp.Http.Outcome.{Exchange, Outcome, Exception}
use new_rojcpp.Http.Request.{Request}
use new_rojcpp.Http.Response.{send_not_found, set_status, res_buff, until_zero}
use new_rojcpp.Http.Response.Status.{StatusType, ContentType, to_rep_string, to_content_type_str}
use new_rojcpp.Http.Response.Text.{
  content_text, literal_text, set_status_and_content-Holds, set_status_and_literal-Holds,
}
use new_rojcpp.Http.Router.{Invoker, route}
use new_rojcpp.Http.Session.{http_handle_check, caught, fail_with, session_route}

abbrev pub not_found_text : List ℕ
not_found_text = codes "HTTP/1.1 404 Not Found\r\nServer: rojcpp\r\n\r\n"

-- The session ends without an exception, and the client gets `text`.
pub record Answers (text : List ℕ) (o : Outcome Request Unit) : Type 0 where
  pub after : Exchange Request
  pub returned : o ≡ Outcome.returned tt after
  pub sent : res_buff after.res ≡ text

-- The text that is set for an exception is shorter than 2 ^ 31.
abbrev pub IsShort : Exception → Type 0
IsShort (Exception.std_exception what) =
    length (
      content_text StatusType.internal_server_error ContentType.string
        (what ++ codes " exception in business function"))
    < 2 ^ 31
IsShort Exception.other = Unit

no_zero :
    until_zero (codes "unknown exception business function")
    ≡ codes "unknown exception business function"
unfolding until_zero
no_zero = refl

literal_short :
    length (
      literal_text StatusType.internal_server_error ContentType.string
        (codes "unknown exception business function"))
    < 2 ^ 60
unfolding digits to_rep_string to_content_type_str
literal_short = omega arith

module _ (alloc : Allocator) (routes : List (List ℕ × Invoker Request)) (x : Exchange Request) where
  refused :
      (y : Exchange Request)
      → http_handle_check alloc routes x ≡ Outcome.returned false y
      → Answers not_found_text (session_route alloc routes x)
  unfolding session_route send_not_found res_buff
  refused y e = record {
    after = record y { res = send_not_found y.res };
    returned = rw (session_route, e) refl;
    sent = refl;
  }

  -- A request that no route serves is answered with the text for 404.
  pub unrouted_answer :
      (y : Exchange Request)
      → route routes x.req.method x.req.path x ≡ Outcome.returned false y
      → Answers not_found_text (session_route alloc routes x)
  unfolding http_handle_check
  unrouted_answer y e =
      refused (record y { res = set_status StatusType.not_found y.res })
        (rw (http_handle_check, e) refl)

  -- A request whose route throws a `std::exception` for which a text shorter than 2 ^ 31 is set,
  -- or anything else, while the response's buffer is valid and below 2 ^ 62: nothing escapes from the
  -- session's route, and the client gets the text for 404.
  pub thrown_answer :
      (e : Exception) (y : Exchange Request)
      → IsValid y.res.buff
      → y.res.buff.tot < 2 ^ 62
      → IsShort e
      → route routes x.req.method x.req.path x ≡ Outcome.thrown e y
      → Answers not_found_text (session_route alloc routes x)
  unfolding http_handle_check caught fail_with
  thrown_answer (Exception.std_exception what) y v k s e =
      let h =
        set_status_and_content-Holds alloc StatusType.internal_server_error ContentType.string
          (what ++ codes " exception in business function") y.res v s k in
      refused (record y { res = record y.res { buff = h.buff } })
        (rw (http_handle_check, e, h.returned) refl)
  thrown_answer Exception.other y v k s e =
      let h =
        set_status_and_literal-Holds alloc StatusType.internal_server_error ContentType.string
          (codes "unknown exception business function") y.res v no_zero literal_short k in
      refused (record y { res = record y.res { buff = h.buff } })
        (rw (http_handle_check, e, h.returned) refl)
