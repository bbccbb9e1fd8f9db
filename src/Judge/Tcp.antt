-- ===== src/Judge/Tcp.antt =====
-- libs/judgercpp/judge_server/src/socketBase.hpp: texts behind their lengths on a TCP connection. The
-- descriptors are never -1, and TcpRead is called without a timeout. A connection is given by the
-- pieces that arrive on it; an empty piece is an error or the end.
pub mod Pieces
pub mod Frames
mod Tests
use new_rojcpp.Prelude.{
  ℕ, zero, suc, ◌+◌, ◌-◌, ◌^◌, List, [], ◌∷◌, ◌++◌, Option, none, some, Bool, true, false, ltb, leb,
  ◌==◌, length, take, drop, replicate, if◌then◌else◌,
}
use new_rojcpp.Judge.Wire.{push_back, push_back_text, get_int, word_mod}

-- What was read and what is left, when all of it came, when `recv` failed, or when it still waits.
pub data ReadN : Type 0 where
  complete : List ℕ → List (List ℕ) → ReadN
  broken : List ℕ → List (List ℕ) → ReadN
  waiting : List ℕ → ReadN

-- `readn`, behind what it has read: `recv` gives what there is of a piece, up to the bytes left.
unfoldable pub readn : List (List ℕ) → ℕ → List ℕ → ReadN
readn [] left buffer = if left == 0 then complete buffer [] else waiting buffer
readn (piece ∷ pieces) left buffer = elim (left == 0) [
  | true ↦ complete buffer (piece ∷ pieces)
  | false ↦ elim (length piece == 0) [
    | true ↦ broken buffer pieces
    | false ↦ elim (ltb left (length piece)) [
      | true ↦ complete (buffer ++ take left piece) (drop left piece ∷ pieces)
      | false ↦ readn pieces (left - length piece) (buffer ++ piece)
    ]
  ]
]

-- TcpRead: the text, or what the string holds when it returns false, or the exception of `resize` for
-- a negative length.
pub data Received : Type 0 where
  received : List ℕ → List (List ℕ) → Received
  failed : List ℕ → List (List ℕ) → Received
  bad_length : Received
  blocked : Received

-- The string has its new size before the bytes come.
abbrev pub body_of : ℕ → ReadN → Received
body_of size (complete buffer rest) = received buffer rest
body_of size (broken buffer rest) = failed (buffer ++ replicate (size - length buffer) 0) rest
body_of size (waiting buffer) = blocked

unfoldable pub read_body : Option ℕ → List (List ℕ) → Received
unfolding readn
read_body none rest = blocked
read_body (some size) rest = elim (ltb size (2 ^ 31)) [
  | false ↦ bad_length
  | true ↦ body_of size (readn rest size [])
]

unfoldable pub tcp_read : List (List ℕ) → Received
unfolding read_body
tcp_read pieces = elim (readn pieces 4 []) [
  | complete header rest ↦ read_body (get_int header 0) rest
  | broken buffer rest ↦ failed [] rest
  | waiting buffer ↦ blocked
]

-- `writen`, with what the calls of `send` take: the bytes that were sent, and what is returned, or
-- `none` while it waits.
unfoldable pub writen : List ℕ → List ℕ → List ℕ × Option Bool
writen calls [] = ([], some true)
writen [] buffer = ([], none)
writen (sent ∷ calls) (b ∷ buffer) = elim (sent == 0) [
  | true ↦ ([], some false)
  | false ↦
      let (more, result) = writen calls (drop sent (b ∷ buffer)) in
      (take sent (b ∷ buffer) ++ more, result)
]

-- The text behind its length.
unfoldable pub frame : List ℕ → List ℕ
frame text = push_back_text text (push_back (length text) [])

-- TcpWrite: `ready` is whether the connection could be written to within five seconds. `none` is the
-- write behind the buffer, where it is shorter than the 32 bytes of a std::string that are cleared.
unfoldable pub tcp_write : Bool → List ℕ → List ℕ → Option (List ℕ × Option Bool)
unfolding writen frame
tcp_write ready calls text = elim ready [
  | false ↦ some ([], some false)
  | true ↦ if ltb (length text) 27 then none else some (writen calls (frame text))
]
