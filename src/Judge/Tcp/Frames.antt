-- ===== src/Judge/Tcp/Frames.antt =====
-- Texts behind their lengths, however the connection cuts them.
use new_rojcpp.Prelude.{
  ℕ, ◌+◌, ◌^◌, ◌≤◌, ◌<◌, ◌≡◌, refl, sym, ap, ◌∙◌, List, [], ◌++◌, some, true, false, arith, ltb,
  length, joined, length-append, take_append, drop_append, append_assoc, append-nil, total,
  ArePositive,
}
use new_rojcpp.Judge.Wire.{push_back_text, get_int}
use new_rojcpp.Judge.Wire.Reading.{word_bytes, push_back_lem, get_int_lem, length-word_bytes}
use new_rojcpp.Judge.Tcp.{complete, readn, received, read_body, tcp_read, frame, tcp_write}
use new_rojcpp.Judge.Tcp.Pieces.{AreFull, readn-take, writen_all}

frame_lem : (text : List ℕ) → frame text ≡ word_bytes (length text) ++ text
unfolding frame push_back_text
frame_lem text = ap (λ t. t ++ text) (push_back_lem (length text) [])

-- Reading a known number of bytes from pieces that begin with them.
readn-front :
    (pieces : List (List ℕ)) (front rest : List ℕ) (n : ℕ)
    → AreFull pieces
    → n ≡ length front
    → joined pieces ≡ front ++ rest
    → (more : List (List ℕ)) × (readn pieces n [] ≡ complete front more)
      × (joined more ≡ rest)
      × AreFull more
readn-front pieces front rest n f s e =
    let fits : n ≤ length (joined pieces) =
      omega (arith, s, ap length e, length-append front rest) in
    let (more, r, k) = readn-take pieces n [] f fits in
    (
      more,
      r ∙ ap (λ t. complete t more) (rw (e, s) (take_append front rest)),
      k.behind ∙ rw (e, s) (drop_append front rest),
      k.full,
    )

-- What is written is a text behind its length, and what is read from pieces that begin with it is that
-- text, with the rest left.
pub tcp_read-frame :
    (pieces : List (List ℕ)) (text rest : List ℕ)
    → AreFull pieces
    → length text < 2 ^ 31
    → joined pieces ≡ frame text ++ rest
    → (more : List (List ℕ)) × (tcp_read pieces ≡ received text more)
      × (joined more ≡ rest)
      × AreFull more
unfolding tcp_read read_body
tcp_read-frame pieces text rest f s e =
    let header = word_bytes (length text) in
    let cut : joined pieces ≡ header ++ (text ++ rest) =
      e ∙ ap (λ t. t ++ rest) (frame_lem text) ∙ append_assoc header text rest in
    let (behind, r, j, g) =
      readn-front pieces header (text ++ rest) 4 f (sym (length-word_bytes (length text))) cut in
    let (more, r', j', g') = readn-front behind text rest (length text) g refl j in
    let size : get_int header 0 ≡ some (length text) =
      get_int_lem (length text) header [] 0 (omega (arith, s)) (sym (append-nil header)) in
    let small : ltb (length text) (2 ^ 31) ≡ true = ground (arith, s) in
    (more, rw (tcp_read, r, size, read_body, small, r') refl, j', g')

-- A write that the connection is ready for, with calls that take enough bytes, puts the text on it
-- behind its length.
pub tcp_write-frame :
    (calls text : List ℕ)
    → ArePositive calls
    → 27 ≤ length text
    → length text + 4 ≤ total calls
    → tcp_write true calls text ≡ some (frame text, some true)
unfolding tcp_write
tcp_write-frame calls text p h t =
    let long : ltb (length text) 27 ≡ false = ground (arith, h) in
    let size : length (frame text) ≤ total calls = omega (
      arith,
      t,
      ap length (frame_lem text),
      length-append (word_bytes (length text)) text,
      length-word_bytes (length text),
    ) in
    rw (tcp_write, long, writen_all calls (frame text) p size) refl
