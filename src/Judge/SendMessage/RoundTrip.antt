-- ===== src/Judge/SendMessage/RoundTrip.antt =====
-- Send.hpp: `dumps`, and `loads` on what it wrote.
use new_rojcpp.Prelude.{ℕ, ◌<◌, ◌^◌, ◌≡◌, List, [], ◌++◌, some, length}
use new_rojcpp.Judge.Wire.{word_mod}
use new_rojcpp.Judge.Wire.Reading.{
  Reads, pure-Reads, >>=-Reads, read_int-Reads, read_text-Reads, text_bytes, word_bytes, written,
}
use new_rojcpp.Judge.SendMessage.{MessageSend, dumps, read_message, loads}

-- Every text is shorter than 2 ^ 32, and the limits are 32-bit patterns.
pub record IsSendable (m : MessageSend) : Type 0 where
  pub key_fits : length m.key < word_mod
  pub code_fits : length m.code < word_mod
  pub language_fits : length m.language < word_mod
  pub pid_fits : length m.pid < word_mod
  pub time_fits : m.time_limit < word_mod
  pub memory_fits : m.memory_limit < word_mod

message_bytes : MessageSend → List ℕ
message_bytes m =
    text_bytes m.key
    ++ (text_bytes m.code
        ++ (text_bytes m.language
            ++ (text_bytes m.pid
                ++ (word_bytes m.time_limit ++ (word_bytes m.memory_limit ++ [])))))

dumps_bytes : (m : MessageSend) → dumps m ≡ message_bytes m
unfolding dumps message_bytes
dumps_bytes m = simp written

read_message-Reads : (m : MessageSend) → IsSendable m → Reads read_message m (message_bytes m)
unfolding read_message message_bytes
read_message-Reads m s = >>=-Reads _ (read_text-Reads m.key s.key_fits) (
    >>=-Reads _ (read_text-Reads m.code s.code_fits) (
      >>=-Reads _ (read_text-Reads m.language s.language_fits) (
        >>=-Reads _ (read_text-Reads m.pid s.pid_fits) (
          >>=-Reads _ (read_int-Reads m.time_limit s.time_fits)
            (>>=-Reads _ (read_int-Reads m.memory_limit s.memory_fits) (pure-Reads m))))))

-- Whatever follows in the text, `loads` gives back the request that `dumps` wrote: any bytes in the
-- texts, lengths and limits below 2 ^ 32, where the whole text is shorter than 2 ^ 31.
pub loads-dumps_send :
    (m : MessageSend) (rest : List ℕ)
    → IsSendable m
    → length (dumps m ++ rest) < 2 ^ 31
    → loads (dumps m ++ rest) ≡ some m
unfolding loads
loads-dumps_send m rest s l =
    let (cur, e, _) =
      (read_message-Reads m s).run (dumps m ++ rest) rest 0 l (rw (dumps_bytes m)) in
    rw (e, loads)
