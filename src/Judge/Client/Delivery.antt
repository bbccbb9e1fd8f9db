-- ===== src/Judge/Client/Delivery.antt =====
-- A request from the back end to the queue of the judge server.
use new_rojcpp.Prelude.{ℕ, ◌≡◌, List, [], ◌∷◌, ◌++◌, some, true, joined}
use new_rojcpp.Judge.SendMessage.{MessageSend, dumps}
use new_rojcpp.Judge.Tcp.{frame}
use new_rojcpp.Judge.Server.Sockets.{SocketMap, get_fd, unuse}
use new_rojcpp.Judge.Server.Loop.{Server, next, serve}
use new_rojcpp.Judge.Server.Loop.Requests.{node_of}
use new_rojcpp.Judge.Client.{send}

-- What `send` writes, and what the server makes of it.
pub record IsDelivered (calls : List ℕ) (m : MessageSend) (sockets : SocketMap) (fd : ℕ) (conn : ℕ)
    (pieces : List (List ℕ)) (s : Server) : Type 0 where
  pub written :
      send true calls m sockets
      ≡ some (fd, some (frame (dumps m), some true), unuse fd (get_fd sockets).1)
  pub left : List (List ℕ)
  pub queued :
      serve conn 1 pieces s ≡ next (record s { queue = s.queue ++ node_of conn m ∷ [] }) left
  pub nothing_left : joined left ≡ []
