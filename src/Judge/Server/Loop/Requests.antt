-- ===== src/Judge/Server/Loop/Requests.antt =====
-- The requests that arrive on a connection.
use new_rojcpp.Prelude.{
  ℕ, ◌^◌, ◌<◌, ◌≡◌, sym, ap, ◌∙◌, List, [], ◌∷◌, ◌++◌, some, length, joined, map, append_assoc,
  append-nil,
}
use new_rojcpp.Judge.SendMessage.{MessageSend, dumps, loads}
use new_rojcpp.Judge.SendMessage.RoundTrip.{IsSendable, loads-dumps_send}
use new_rojcpp.Judge.Tcp.{frame}
use new_rojcpp.Judge.Tcp.Pieces.{AreFull}
use new_rojcpp.Judge.Tcp.Frames.{tcp_read-frame}
use new_rojcpp.Judge.Server.Worker.{QueueNode, enque}
use new_rojcpp.Judge.Server.Loop.{Server, next, queued, request_round, serve}

abbrev pub AreRequests : List MessageSend → Type 0
AreRequests [] = Unit
AreRequests (m ∷ ms) = IsSendable m × (length (dumps m) < 2 ^ 31) × AreRequests ms

-- The bytes of requests, one behind the other.
abbrev pub requests_bytes : List MessageSend → List ℕ
requests_bytes [] = []
requests_bytes (m ∷ ms) = frame (dumps m) ++ requests_bytes ms

-- What stands in the queue for a request: its parts, the connection, and no path, so that the problem
-- is looked for by its name.
abbrev pub node_of : ℕ → MessageSend → QueueNode
node_of conn m = record {
  fd = conn;
  key = m.key;
  code = m.code;
  language = m.language;
  pid = m.pid;
  problem_path = [];
  time_limit = m.time_limit;
  memory_limit = m.memory_limit;
}

-- Whatever pieces the bytes of some requests arrive in: after as many rounds the queue is what it was
-- and behind it a node for each request, in the order in which they were sent, with the request's key,
-- program, language, problem and limits and the connection that it came on; the bytes behind the
-- requests are left, and the connections are as they were. Each text is shorter than 2 ^ 31.
pub serve-requests :
    (fd : ℕ) (ms : List MessageSend) (pieces : List (List ℕ)) (rest : List ℕ) (s : Server)
    → AreFull pieces
    → AreRequests ms
    → joined pieces ≡ requests_bytes ms ++ rest
    → (more : List (List ℕ)) × (serve fd (length ms) pieces s
        ≡ next (record s { queue = s.queue ++ map (node_of fd) ms }) more)
      × (joined more ≡ rest)
unfolding serve request_round queued enque
serve-requests fd [] pieces rest s f h e =
    (pieces, ap (λ q. next (record s { queue = q }) pieces) (sym (append-nil s.queue)), e)
serve-requests fd (m ∷ ms) pieces rest s f h e =
    let cut = e ∙ append_assoc (frame (dumps m)) (requests_bytes ms) rest in
    let (behind, r, j, g) = tcp_read-frame pieces (dumps m) (requests_bytes ms ++ rest) f h.1 cut in
    let read : loads (dumps m) ≡ some m =
      ap loads (sym (append-nil (dumps m)))
      ∙ loads-dumps_send m [] h.0 (rw (append-nil (dumps m)) h.1) in
    let (more, r', j') =
      serve-requests fd ms behind rest (record s { queue = s.queue ++ node_of fd m ∷ [] }) g h.2
        j in
    (
      more,
      rw (serve, request_round, r, queued, read) r'
          ∙ ap (λ q. next (record s { queue = q }) more)
              (append_assoc s.queue (node_of fd m ∷ []) (map (node_of fd) ms)),
      j',
    )
