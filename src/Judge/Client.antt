-- ===== src/Judge/Client.antt =====
-- libs/judgercpp/judge_server/src/Client.hpp: the back end's side of its connections to the judge
-- server. The sending threads take a connection for each request; one thread reads the answers.
pub mod Answers
pub mod Delivery
mod Tests
use new_rojcpp.Prelude.{ℕ, List, [], ◌∷◌, ◌++◌, Option, none, some, Bool, true, false}
use new_rojcpp.Judge.SendMessage.{MessageSend, dumps}
use new_rojcpp.Judge.ResultMessage.{MessageResult, loads}
use new_rojcpp.Judge.Tcp.{Received, received, failed, bad_length, blocked, tcp_read, tcp_write}
use new_rojcpp.Judge.Server.Sockets.{SocketMap, get_fd, unuse}

-- The descriptor, what TcpWrite did, and the map when the connection is free again; `none` while all
-- connections are in use. What TcpWrite returns is not asked.
unfoldable pub send :
    Bool → List ℕ → MessageSend → SocketMap → Option (ℕ × Option (List ℕ × Option Bool) × SocketMap)
send ready calls m sockets =
    let (picked, taken) = get_fd sockets in
    elim picked [
      | none ↦ none
      | some fd ↦ some (fd, tcp_write ready calls (dumps m), unuse fd taken)
    ]

abbrev pub new_result : MessageResult
new_result = record { code = 0; key = []; msg = []; results = [] }

-- What the thread has handed to the handler, and what is left on the connection; `none` where the
-- process dies, a read waits for ever, or a text is read behind its end.
abbrev pub Handled : Type 0
Handled = Option (List MessageResult × List (List ℕ))

abbrev pub before : MessageResult → Handled → Handled
before m none = none
before m (some (ms, rest)) = some (m ∷ ms, rest)

abbrev pub handed : (List (List ℕ) → Handled) → Option MessageResult → List (List ℕ) → Handled
handed again none rest = none
handed again (some m) rest = before m (again rest)

-- The rounds of the thread for one connection: each comes with an edge, when something arrives, and
-- reads one message. Whether TcpRead failed is not asked.
unfoldable pub receive : List (List (List ℕ)) → List (List ℕ) → Handled
receive [] pending = some ([], pending)
receive (arrived ∷ edges) pending = elim (tcp_read (pending ++ arrived)) [
  | received text rest ↦ handed (receive edges) (loads new_result text) rest
  | failed text rest ↦ handed (receive edges) (loads new_result text) rest
  | bad_length ↦ none
  | blocked ↦ none
]
