-- ===== src/Judge/Wire/Reading.antt =====
-- MessageBuffer.hpp: the bytes that are written, and readers at any position of a text.
use new_rojcpp.Prelude.{
  ℕ, ◌+◌, ◌-◌, ◌*◌, ◌/◌, ◌%◌, ◌^◌, ◌<◌, ◌≤◌, ◌≡◌, refl, sym, ap, ◌∙◌, List, [], ◌∷◌, ◌++◌, some,
  arith, length, take, drop, length-append, length-drop, append_assoc, append-nil, drop_add,
  drop_append, take_append, leb, ltb, true,
}
use new_rojcpp.Judge.Wire.{
  push_back, push_back_text, append_message, word_mod, Reader, pure, ◌>>=◌, word_at, get_int,
  read_int, read_text,
}

-- Where `bytes` stands in a text shorter than 2 ^ 31, `r` returns `v` and stops behind it.
pub record Reads {A : Type 0} (r : Reader A) (v : A) (bytes : List ℕ) : Type 0 where
  pub run :
      (str post : List ℕ) (cur : ℕ)
      → length str < 2 ^ 31
      → drop cur str ≡ bytes ++ post
      → (cur' : ℕ) × (r str cur ≡ some (v, cur')) × (drop cur' str ≡ post)

pub pure-Reads : {A : Type 0} (v : A) → Reads (pure v) v []
pure-Reads v = record { run = λ str post cur l h. (cur, refl, h) }

pub >>=-Reads :
    {A B : Type 0} {r : Reader A} {v : A} {w : B} {bytes rest : List ℕ} (f : A → Reader B)
    → Reads r v bytes
    → Reads (f v) w rest
    → Reads (r >>= f) w (bytes ++ rest)
>>=-Reads {r} {v} {w} {bytes} {rest} f h k = record {
  run = λ str post cur l e.
      let (cur', e', d) = h.run str (rest ++ post) cur l (e ∙ append_assoc bytes rest post) in
      let (cur'', e'', d') = k.run str post cur' l d in (cur'', rw (e', ◌>>=◌) e'', d');
}

pub word_bytes : ℕ → List ℕ
word_bytes val =
    (val / 2 ^ 24 % 256) ∷ (val / 2 ^ 16 % 256) ∷ (val / 2 ^ 8 % 256) ∷ (val % 256) ∷ []

pub length-word_bytes : (val : ℕ) → length (word_bytes val) ≡ 4
unfolding word_bytes
length-word_bytes val = refl

pub push_back_lem : (val : ℕ) (buff : List ℕ) → push_back val buff ≡ buff ++ word_bytes val
unfolding push_back word_bytes
push_back_lem val buff = refl

pub text_bytes : List ℕ → List ℕ
text_bytes msg = word_bytes (length msg % word_mod) ++ msg

pub append_message_lem : (msg buff : List ℕ) → append_message msg buff ≡ buff ++ text_bytes msg
unfolding append_message push_back_text text_bytes
append_message_lem msg buff = rw push_back_lem (append_assoc buff _ msg)

pub ruleset written = (push_back_lem, append_message_lem, append_assoc, append-nil)

pub get_int_lem :
    (val : ℕ) (str post : List ℕ) (cur : ℕ)
    → val < word_mod
    → drop cur str ≡ word_bytes val ++ post
    → get_int str cur ≡ some val
unfolding get_int word_at word_bytes
get_int_lem val str post cur h e = rw (e, get_int) (ap some (omega arith))

behind_word :
    (val : ℕ) (str post : List ℕ) (cur : ℕ)
    → drop cur str ≡ word_bytes val ++ post
    → drop (cur + 4) str ≡ post
unfolding word_bytes
behind_word val str post cur e = drop_add cur 4 str ∙ ap (drop 4) e

inside_word :
    (val : ℕ) (str post : List ℕ) (cur : ℕ)
    → length str < 2 ^ 31
    → drop cur str ≡ word_bytes val ++ post
    → ltb (cur + 4) (2 ^ 31) ≡ true
unfolding word_bytes
inside_word val str post cur l e = ground (arith, l, length-drop cur str, ap length e)

pub read_int-Reads : (val : ℕ) → val < word_mod → Reads read_int val (word_bytes val)
unfolding read_int
read_int-Reads val h = record {
  run = λ str post cur l e.
      let fits : ltb (cur + 4) (2 ^ 31) ≡ true = inside_word val str post cur l e in
      (
        cur + 4,
        rw (get_int_lem val str post cur h e, read_int, fits),
        behind_word val str post cur e,
      );
}

read_text_at :
    (msg str post : List ℕ) (cur : ℕ)
    → length msg < word_mod
    → length str < 2 ^ 31
    → drop cur str ≡ text_bytes msg ++ post
    → (read_text str cur ≡ some (msg, cur + 4 + length msg))
      × (drop (cur + 4 + length msg) str ≡ post)
unfolding read_text text_bytes word_bytes
read_text_at msg str post cur h l e = (
  rw (size, read_text, fits, small, behind, take_append msg post),
  drop_add (cur + 4) (length msg) str ∙ ap (drop (length msg)) behind ∙ drop_append msg post,
)
  where
    whole : length msg % word_mod ≡ length msg
    whole = omega arith

    size : get_int str cur ≡ some (length msg)
    size = get_int_lem _ str (msg ++ post) cur (omega arith) e ∙ ap some whole

    behind : drop (cur + 4) str ≡ msg ++ post
    behind = behind_word (length msg % word_mod) str (msg ++ post) cur e

    fits : leb (cur + 4 + length msg) (length str) ≡ true
    fits = ground (arith, length-drop cur str, ap length e, length-append msg post)

    small : ltb (cur + 4 + length msg) (2 ^ 31) ≡ true
    small = ground (arith, l, fits)

pub read_text-Reads : (msg : List ℕ) → length msg < word_mod → Reads read_text msg (text_bytes msg)
read_text-Reads msg h = record {
  run = λ str post cur l e.
      let (returned, behind) = read_text_at msg str post cur h l e in
      (cur + 4 + length msg, returned, behind);
}
