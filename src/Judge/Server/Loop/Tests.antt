-- ===== src/Judge/Server/Loop/Tests.antt =====
-- Rounds of the server that are written out.
use new_rojcpp.Prelude.{
  ℕ, ◌^◌, ◌<◌, ◌≡◌, refl, List, [], ◌∷◌, ◌++◌, some, none, true, arith, length, joined, take, drop,
}
use new_rojcpp.Prelude.Dict.{lookup, emplace, erase}
use new_rojcpp.Prelude.Text.{codes}
use new_rojcpp.Judge.SendMessage.{MessageSend, dumps}
use new_rojcpp.Judge.Wire.{push_back, push_back_text, append_message}
use new_rojcpp.Judge.SendMessage.RoundTrip.{IsSendable}
use new_rojcpp.Judge.Tcp.{frame}
use new_rojcpp.Judge.Tcp.Pieces.{AreFull}
use new_rojcpp.Judge.Server.Sockets.{insert_fd, remove_fd}
use new_rojcpp.Judge.Server.Loop.{Server, accepted, closed, next, serve, fd_set, fd_clr}
use new_rojcpp.Judge.Server.Loop.Requests.{requests_bytes, node_of, serve-requests}

abbrev idle : Server
idle = record { readfds = 3 ∷ []; sockets = []; queue = [] }

abbrev with_client : Server
with_client = accepted 4 idle

closed_again : closed 4 with_client ≡ some idle
unfolding closed accepted fd_set fd_clr insert_fd remove_fd lookup emplace erase
closed_again = refl

-- While a thread writes to it, a connection is not closed.
in_use : closed 4 (record with_client { sockets = (4, true) ∷ [] }) ≡ none
unfolding closed accepted remove_fd lookup
in_use = refl

abbrev job : MessageSend
job = record {
  key = codes "7";
  code = codes "int main(){}";
  language = codes "cpp";
  pid = codes "1000";
  time_limit = 1000;
  memory_limit = 128;
}

job-IsSendable : IsSendable job
job-IsSendable = omega arith

-- Two requests, the first cut within its length, with a byte behind them.
abbrev two_jobs : List (List ℕ)
two_jobs =
    let bytes = frame (dumps job) ++ (frame (dumps job) ++ 9 ∷ []) in
    take 2 bytes ∷ drop 2 bytes ∷ []

two_jobs-AreFull : AreFull two_jobs
unfolding dumps frame push_back push_back_text append_message
two_jobs-AreFull = omega arith

job_size : length (dumps job) < 2 ^ 31
unfolding dumps push_back push_back_text append_message
job_size = omega arith

two_jobs_bytes : joined two_jobs ≡ requests_bytes (job ∷ job ∷ []) ++ 9 ∷ []
unfolding dumps frame push_back push_back_text append_message
two_jobs_bytes = refl

serve-requests_example :
    (more : List (List ℕ)) × (serve 4 2 two_jobs with_client
      ≡ next (record with_client { queue = node_of 4 job ∷ node_of 4 job ∷ [] }) more)
    × (joined more ≡ 9 ∷ [])
unfolding accepted
serve-requests_example =
    serve-requests 4 (job ∷ job ∷ []) two_jobs (9 ∷ []) with_client two_jobs-AreFull
      (job-IsSendable, job_size, (job-IsSendable, job_size, tt)) two_jobs_bytes
