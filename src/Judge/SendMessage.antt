-- ===== src/Judge/SendMessage.antt =====
-- libs/judgercpp/judge_server/src/Send.hpp: the request that the back end sends to the judge server.
pub mod RoundTrip
mod Tests
use new_rojcpp.Prelude.{ℕ, List, [], Option, none, some}
use new_rojcpp.Judge.Wire.{push_back, append_message, Reader, pure, ◌>>=◌, read_int, read_text}

-- MessageSendJudge; the limits are `int`s, as bit patterns.
pub record MessageSend : Type 0 where
  pub key : List ℕ
  pub code : List ℕ
  pub language : List ℕ
  pub pid : List ℕ
  pub time_limit : ℕ
  pub memory_limit : ℕ

unfoldable pub dumps : MessageSend → List ℕ
dumps m = push_back m.memory_limit (
    push_back m.time_limit (
      append_message m.pid
        (append_message m.language (append_message m.code (append_message m.key [])))))

-- The reads of both `loads`, from a position on.
pub read_message : Reader MessageSend
read_message = do
  key ← read_text
  code ← read_text
  language ← read_text
  pid ← read_text
  time_limit ← read_int
  memory_limit ← read_int
  pure (record {
    key = key;
    code = code;
    language = language;
    pid = pid;
    time_limit = time_limit;
    memory_limit = memory_limit;
  })

-- `loads(std::string_view)`
pub loads : List ℕ → Option MessageSend
loads str = elim (read_message str 0) [ none ↦ none | some (m, _) ↦ some m ]
