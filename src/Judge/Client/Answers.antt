-- ===== src/Judge/Client/Answers.antt =====
-- Which answers the back end handles, and when.
use new_rojcpp.Prelude.{
  ℕ, suc, ◌^◌, ◌<◌, ◌≡◌, refl, sym, ap, ◌∙◌, List, [], ◌∷◌, ◌++◌, some, length, take, drop, joined,
  joined-append, append_assoc, append-nil,
}
use new_rojcpp.Judge.ResultMessage.{MessageResult, dumps, loads}
use new_rojcpp.Judge.ResultMessage.RoundTrip.{IsAnswer, loads-dumps_result}
use new_rojcpp.Judge.Tcp.{tcp_read, frame}
use new_rojcpp.Judge.Tcp.Pieces.{AreFull}
use new_rojcpp.Judge.Tcp.Frames.{tcp_read-frame}
use new_rojcpp.Judge.Client.{new_result, Handled, receive}

abbrev pub AreAnswers : List MessageResult → Type 0
AreAnswers [] = Unit
AreAnswers (m ∷ ms) = IsAnswer m × (length (dumps m) < 2 ^ 31) × AreAnswers ms

abbrev pub answers_bytes : List MessageResult → List ℕ
answers_bytes [] = []
answers_bytes (m ∷ ms) = frame (dumps m) ++ answers_bytes ms

-- With each edge some whole messages come, in pieces that are not empty.
abbrev pub AreEdges : List (List MessageResult) → List (List (List ℕ)) → Type 0
AreEdges [] [] = Unit
AreEdges ([] ∷ groups) (arrived ∷ edges) = ⊥
AreEdges ((m ∷ ms) ∷ groups) (arrived ∷ edges) =
    AreFull arrived
    × AreAnswers (m ∷ ms)
    × (joined arrived ≡ answers_bytes (m ∷ ms))
    × AreEdges groups edges
AreEdges _ _ = ⊥

answers_bytes-append :
    (ms ns : List MessageResult) → answers_bytes (ms ++ ns) ≡ answers_bytes ms ++ answers_bytes ns
answers_bytes-append [] ns = refl
answers_bytes-append (m ∷ ms) ns =
    ap (◌++◌ (frame (dumps m))) (answers_bytes-append ms ns)
    ∙ sym (append_assoc (frame (dumps m)) (answers_bytes ms) (answers_bytes ns))

AreFull-append : (ps qs : List (List ℕ)) → AreFull ps → AreFull qs → AreFull (ps ++ qs)
AreFull-append [] qs f g = g
AreFull-append (p ∷ ps) qs f g = (f.0, AreFull-append ps qs f.1 g)

AreAnswers-append :
    (ms ns : List MessageResult) → AreAnswers ms → AreAnswers ns → AreAnswers (ms ++ ns)
AreAnswers-append [] ns f g = g
AreAnswers-append (m ∷ ms) ns f g = (f.0, f.1, AreAnswers-append ms ns f.2 g)

-- Answers that wait on the connection.
pub record IsPending (ms : List MessageResult) (pending : List (List ℕ)) : Type 0 where
  pub bytes : joined pending ≡ answers_bytes ms
  pub full : AreFull pending
  pub answers : AreAnswers ms

arrive :
    (ms ns : List MessageResult) (pending arrived : List (List ℕ))
    → IsPending ms pending
    → IsPending ns arrived
    → IsPending (ms ++ ns) (pending ++ arrived)
arrive ms ns pending arrived p q = record {
  bytes =
      joined-append pending arrived
      ∙ ap (λ t. t ++ joined arrived) p.bytes
      ∙ ap (◌++◌ (answers_bytes ms)) q.bytes
      ∙ sym (answers_bytes-append ms ns);
  full = AreFull-append pending arrived p.full q.full;
  answers = AreAnswers-append ms ns p.answers q.answers;
}

-- One message is read.
read_one :
    (m : MessageResult) (ms : List MessageResult) (pending : List (List ℕ))
    → IsPending (m ∷ ms) pending
    → (rest : List (List ℕ)) × (tcp_read pending ≡ new_rojcpp.Judge.Tcp.received (dumps m) rest)
      × (loads new_result (dumps m) ≡ some m)
      × IsPending ms rest
read_one m ms pending p =
    let (rest, r, j, f) =
      tcp_read-frame pending (dumps m) (answers_bytes ms) p.full p.answers.1 p.bytes in
    (
      rest,
      r,
      ap (loads new_result) (sym (append-nil (dumps m)))
          ∙ loads-dumps_result new_result m [] p.answers.0 (rw (append-nil (dumps m)) p.answers.1),
      record { bytes = j; full = f; answers = p.answers.2 },
    )

-- The first so many answers have been handled, and the others wait.
pub record Handles (n : ℕ) (all : List MessageResult) (h : Handled) : Type 0 where
  pub rest : List (List ℕ)
  pub handled : h ≡ some (take n all, rest)
  pub waits : IsPending (drop n all) rest

-- One edge, when the answers that wait are `m` and those behind it.
edge-Handles :
    (n : ℕ) (arrived : List (List ℕ)) (edges : List (List (List ℕ))) (m : MessageResult)
    (ms all : List MessageResult) (pending : List (List ℕ))
    → IsPending (m ∷ ms) (pending ++ arrived)
    → ((rest : List (List ℕ)) → IsPending ms rest → Handles n all (receive edges rest))
    → Handles (suc n) (m ∷ all) (receive (arrived ∷ edges) pending)
unfolding receive
edge-Handles n arrived edges m ms all pending p next =
    let (rest, r, l, q) = read_one m ms (pending ++ arrived) p in
    let h = next rest q in
    record { rest = h.rest; handled = rw (receive, r, l, h.handled) refl; waits = h.waits }

no_edges :
    (group : List MessageResult) (groups : List (List MessageResult))
    → AreEdges (group ∷ groups) []
    → ⊥
no_edges [] groups a = a
no_edges (n ∷ ns) groups a = a

-- If whole answers arrive with every edge, whatever pieces they come in: each edge has one answer
-- handled, the first that waits, so that as many have been handled as there were edges, in the order
-- in which they were sent, and the others wait on the connection.
pub receive-Handles :
    (groups : List (List MessageResult)) (edges : List (List (List ℕ))) (ms : List MessageResult)
    (pending : List (List ℕ))
    → AreEdges groups edges
    → IsPending ms pending
    → Handles (length groups) (ms ++ joined groups) (receive edges pending)
unfolding receive
receive-Handles [] [] ms pending a p = record {
  rest = pending;
  handled = refl;
  waits = rw (append-nil ms) p;
}
receive-Handles [] (arrived ∷ edges) ms pending a p = absurd a
receive-Handles (group ∷ groups) [] ms pending a p = absurd (no_edges group groups a)
receive-Handles ([] ∷ groups) (arrived ∷ edges) ms pending a p = absurd a
receive-Handles ((n ∷ ns) ∷ groups) (arrived ∷ edges) [] pending a p =
    edge-Handles (length groups) arrived edges n ns (ns ++ joined groups) pending
      (arrive [] (n ∷ ns) pending arrived p (record { bytes = a.2; full = a.0; answers = a.1 }))
      (λ rest q. receive-Handles groups edges ns rest a.3 q)
receive-Handles ((n ∷ ns) ∷ groups) (arrived ∷ edges) (m ∷ ms) pending a p =
    let same : (ms ++ n ∷ ns) ++ joined groups ≡ ms ++ ((n ∷ ns) ++ joined groups) =
      append_assoc ms (n ∷ ns) (joined groups) in
    rw (← same) (
      edge-Handles (length groups) arrived edges m (ms ++ n ∷ ns) ((ms ++ n ∷ ns) ++ joined groups)
        pending
        (arrive (m ∷ ms) (n ∷ ns) pending arrived p
          (record { bytes = a.2; full = a.0; answers = a.1 }))
        (λ rest q. receive-Handles groups edges (ms ++ n ∷ ns) rest a.3 q))
