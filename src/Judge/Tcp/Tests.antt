-- ===== src/Judge/Tcp/Tests.antt =====
-- Texts on a connection, in pieces that are written out.
use new_rojcpp.Prelude.{◌≡◌, refl, [], ◌∷◌, some, none, true, false, replicate}
use new_rojcpp.Judge.Wire.{push_back, push_back_text, get_int}
use new_rojcpp.Judge.Tcp.{
  tcp_read, tcp_write, received, failed, bad_length, blocked, readn, read_body, writen, frame,
}

cut_header :
    tcp_read ((0 ∷ 0 ∷ []) ∷ (0 ∷ 3 ∷ 7 ∷ []) ∷ (8 ∷ 9 ∷ 1 ∷ []) ∷ [])
    ≡ received (7 ∷ 8 ∷ 9 ∷ []) ((1 ∷ []) ∷ [])
unfolding tcp_read read_body readn get_int
cut_header = refl

-- What is missing when the connection ends is zero.
cut_body : tcp_read ((0 ∷ 0 ∷ 0 ∷ 3 ∷ 7 ∷ []) ∷ [] ∷ []) ≡ failed (7 ∷ 0 ∷ 0 ∷ []) []
unfolding tcp_read read_body readn get_int
cut_body = refl

negative_length : tcp_read ((255 ∷ 0 ∷ 0 ∷ 3 ∷ []) ∷ []) ≡ bad_length
unfolding tcp_read read_body readn get_int
negative_length = refl

still_waiting : tcp_read ((0 ∷ 0 ∷ 0 ∷ 3 ∷ 7 ∷ []) ∷ []) ≡ blocked
unfolding tcp_read read_body readn get_int
still_waiting = refl

short_text : tcp_write true (100 ∷ []) (replicate 26 0) ≡ none
unfolding tcp_write
short_text = refl

broken_write : tcp_write true (2 ∷ 0 ∷ []) (replicate 27 5) ≡ some (0 ∷ 0 ∷ [], some false)
unfolding tcp_write writen frame push_back push_back_text
broken_write = refl
