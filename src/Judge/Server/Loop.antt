-- ===== src/Judge/Server/Loop.antt =====
-- libs/judgercpp/judge_server/src/Server.hpp: the loop of the judge server over its connections. What
-- select and accept return are the arguments of the rounds.
pub mod Requests
mod Tests
use new_rojcpp.Prelude.{
  ℕ, zero, suc, List, [], ◌∷◌, ◌++◌, Option, none, some, Bool, true, false, ◌==◌, if◌then◌else◌,
}
use new_rojcpp.Judge.SendMessage.{MessageSend, loads}
use new_rojcpp.Judge.Tcp.{Received, received, failed, bad_length, blocked, tcp_read}
use new_rojcpp.Judge.Server.Sockets.{SocketMap, insert_fd, remove_fd}
use new_rojcpp.Judge.Server.Worker.{QueueNode, enque}

pub record Server : Type 0 where
  pub readfds : List ℕ
  pub sockets : SocketMap
  pub queue : List QueueNode

-- FD_SET and FD_CLR
unfoldable pub fd_set : ℕ → List ℕ → List ℕ
fd_set fd [] = fd ∷ []
fd_set fd (g ∷ fds) = if g == fd then g ∷ fds else g ∷ fd_set fd fds

unfoldable pub fd_clr : ℕ → List ℕ → List ℕ
fd_clr fd [] = []
fd_clr fd (g ∷ fds) = let rest = fd_clr fd fds in if g == fd then rest else g ∷ rest

-- A new connection.
unfoldable pub accepted : ℕ → Server → Server
unfolding fd_set
accepted fd s = record s { readfds = fd_set fd s.readfds; sockets = insert_fd fd s.sockets }

-- A connection without data is closed; `none` while the loop waits for it to be out of use.
unfoldable pub closed : ℕ → Server → Option Server
unfolding fd_clr
closed fd s =
    let (removed, m) = remove_fd fd s.sockets in
    if removed then some (record s { readfds = fd_clr fd s.readfds; sockets = m }) else none

-- The state and what is left on the connection, a read that waits, or the end of the process.
pub data Round : Type 0 where
  next : Server → List (List ℕ) → Round
  waits : Round
  dies : Round

-- The request in a text; whether TcpRead failed is not asked. A read behind the text's end is
-- undefined.
unfoldable pub queued : ℕ → List ℕ → List (List ℕ) → Server → Round
queued fd text rest s = elim (loads text) [
  | none ↦ dies
  | some m ↦ next (record s { queue = enque m fd s.queue }) rest
]

-- A connection with data.
unfoldable pub request_round : ℕ → List (List ℕ) → Server → Round
unfolding queued
request_round fd pieces s = elim (tcp_read pieces) [
  | received text rest ↦ queued fd text rest s
  | failed text rest ↦ queued fd text rest s
  | bad_length ↦ dies
  | blocked ↦ waits
]

-- So many rounds with data on one connection.
unfoldable pub serve : ℕ → ℕ → List (List ℕ) → Server → Round
unfolding request_round
serve fd zero pieces s = next s pieces
serve fd (suc n) pieces s = elim (request_round fd pieces s) [
  | next s' rest ↦ serve fd n rest s'
  | waits ↦ waits
  | dies ↦ dies
]
