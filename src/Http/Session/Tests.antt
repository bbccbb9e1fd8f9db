-- ===== src/Http/Session/Tests.antt =====
-- Runs and instances of the theorems on the session.
use new_rojcpp.Prelude.{
  ℕ, ◌≡◌, refl, List, [], ◌∷◌, ◌++◌, none, arith, inl, map, replicate, length-replicate, length,
  ltb, bytes_beq, if◌then◌else◌,
}
use new_rojcpp.Prelude.Dict.{lookup, bytes_eq}
use new_rojcpp.Prelude.Text.{codes}
use new_rojcpp.Prelude.Decimal.{digits}
use new_rojcpp.Buffer.{Allocator}
use new_rojcpp.Buffer.Growth.{IsValid, contents}
use new_rojcpp.Http.Outcome.{Exchange, Outcome, Exception}
use new_rojcpp.Http.Request.{ParseRet, Phr, Request}
use new_rojcpp.Http.Response.Status.{StatusType, ContentType, to_rep_string, to_content_type_str}
use new_rojcpp.Http.Router.{Invoker, route}
use new_rojcpp.Http.Session.{session_route}
use new_rojcpp.Http.Session.Answers.{Answers, IsShort, not_found_text, thrown_answer}
use new_rojcpp.Http.Session.Deal.{ReadResult, send_loop, read_loop}
use new_rojcpp.Http.Session.Reading.{IsReading, IsSplit, ParsesOnce, read_loop-ParsesOnce}
use new_rojcpp.Http.Session.Sending.{send_loop-text}

abbrev zeros : Allocator
zeros = record { allocate = λ n. replicate n 0; length-allocate = λ n. length-replicate n 0 }

abbrev fresh : Request
fresh = record {
  headers = [];
  method = codes "GET";
  url = codes "/a";
  path = codes "/a";
  minor_version = 0;
  header_len = 0;
  body_len = 0;
  content_type = ContentType.unknown;
  query_map = [];
  buff = record { raw = none; tot = 0; used = 0 };
}

abbrev opening : Exchange Request
opening = record {
  req = fresh;
  res = record {
    headers = [];
    content = [];
    body_type = ContentType.unknown;
    status = StatusType.init;
    rep_str = [];
    buff = record { raw = none; tot = 0; used = 0 };
    const_response = [];
  };
}

-- A handler that throws.
abbrev broken : List (List ℕ × Invoker Request)
broken =
    (
      codes "/a",
      record {
        arr = replicate 26 71;
        run = λ x. Outcome.thrown (Exception.std_exception (codes "db")) x;
      },
    )
    ∷ []

throws :
    route broken opening.req.method opening.req.path opening
    ≡ Outcome.thrown (Exception.std_exception (codes "db")) opening
unfolding route lookup bytes_beq
throws = refl

short : IsShort (Exception.std_exception (codes "db"))
unfolding digits to_rep_string to_content_type_str
short = omega arith

null-IsValid : IsValid opening.res.buff
null-IsValid = record { sized = refl; within = omega arith; bounded = omega arith }

thrown_answer_example : Answers not_found_text (session_route zeros broken opening)
thrown_answer_example =
    thrown_answer zeros broken opening (Exception.std_exception (codes "db")) opening null-IsValid
      (omega arith) short throws

-- A parser that wants four bytes.
abbrev four : List ℕ → Phr
four t = record {
  ret = if ltb (length t) 4 then ParseRet.incomplete else ParseRet.header_length 4;
  method = codes "GET";
  url = codes "/";
  minor_version = 1;
  headers = [];
}

null-IsReading : IsReading fresh.buff
null-IsReading = record { valid = null-IsValid; room = inl (refl, refl) }

pieces : IsSplit zeros four [] (codes "ab") (codes "cd" ∷ [])
pieces = (omega arith, refl, omega arith)

read_loop-ParsesOnce_example :
    (n : ℕ) × ParsesOnce zeros four
      (contents fresh.buff ++ codes "abcd")
      []
      n
      (read_loop zeros four (map ReadResult.got (codes "ab" ∷ codes "cd" ∷ []) ++ []) 0 fresh)
read_loop-ParsesOnce_example =
    read_loop-ParsesOnce zeros four (codes "ab") (codes "cd" ∷ []) [] 0 fresh null-IsReading pieces
      (omega arith)

send_loop-text_example :
    ((send_loop (2 ∷ 1 ∷ []) (codes "abc")).0 ≡ codes "abc")
    × ((send_loop (2 ∷ 1 ∷ []) (codes "abc")).1 ≡ [])
send_loop-text_example = send_loop-text (2 ∷ 1 ∷ []) (codes "abc") (omega arith) (omega arith)
