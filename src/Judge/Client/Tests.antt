-- ===== src/Judge/Client/Tests.antt =====
-- Messages of the back end's connections that are written out.
use new_rojcpp.Prelude.{ℕ, ◌^◌, ◌<◌, refl, List, [], ◌∷◌, true, false, arith, length}
use new_rojcpp.Prelude.Text.{codes}
use new_rojcpp.Judge.Wire.{push_back, push_back_text, append_message}
use new_rojcpp.Judge.SendMessage
use new_rojcpp.Judge.SendMessage.{MessageSend}
use new_rojcpp.Judge.ResultMessage.{MessageResult, dumps}
use new_rojcpp.Judge.ResultMessage.RoundTrip.{IsAnswer}
use new_rojcpp.Judge.Tcp.{frame}
use new_rojcpp.Judge.Server.Sockets.{SocketMap}
use new_rojcpp.Judge.Server.Loop.{Server}
use new_rojcpp.Judge.Client.{receive}
use new_rojcpp.Judge.Client.Answers.{AreEdges, answers_bytes, Handles, receive-Handles}

abbrev sockets : SocketMap
sockets = (5, true) ∷ (6, false) ∷ []

abbrev job : MessageSend
job = record {
  key = codes "7";
  code = codes "int main(){}";
  language = codes "cpp";
  pid = codes "1000";
  time_limit = 1000;
  memory_limit = 128;
}

abbrev server : Server
server = record { readfds = 3 ∷ 9 ∷ []; sockets = (9, false) ∷ []; queue = [] }

abbrev answer : MessageResult
answer = record { code = 0; key = codes "7"; msg = codes "ALL"; results = [] }

answer-IsAnswer : IsAnswer answer
answer-IsAnswer = omega arith

answer_short : length (dumps answer) < 2 ^ 31
unfolding dumps push_back push_back_text append_message
answer_short = omega arith

-- Two answers come at once, and then a third one.
abbrev groups : List (List MessageResult)
groups = (answer ∷ answer ∷ []) ∷ (answer ∷ []) ∷ []

abbrev edges : List (List (List ℕ))
edges = (answers_bytes (answer ∷ answer ∷ []) ∷ []) ∷ (answers_bytes (answer ∷ []) ∷ []) ∷ []

edges-AreEdges : AreEdges groups edges
unfolding dumps frame push_back push_back_text append_message
edges-AreEdges = (
  omega arith,
  (answer-IsAnswer, answer_short, (answer-IsAnswer, answer_short, tt)),
  refl,
  (omega arith, (answer-IsAnswer, answer_short, tt), refl, tt),
)

receive-Handles_example : Handles 2 (answer ∷ answer ∷ answer ∷ []) (receive edges [])
receive-Handles_example =
    receive-Handles groups edges [] [] edges-AreEdges
      (record { bytes = refl; full = tt; answers = tt })
