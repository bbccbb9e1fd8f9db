-- ===== src/Json/Parse/Reading.antt =====
-- What `parse` reads in the parts of an object.
use new_rojcpp.Prelude.Text.{AllAre}
use new_rojcpp.Prelude.{
  ℕ, ◌≡◌, ◌≢◌, refl, ap, ◌∙◌, List, [], ◌∷◌, ◌++◌, Bool, true, false, not, ◌||◌, ◌&&◌, ◌==◌, arith,
  append_assoc, append-nil,
}
use new_rojcpp.Prelude.Dict.{insert, bytes_eq}
use new_rojcpp.Json.Text.{is_blank_char, nested}
use new_rojcpp.Json.Parse.{Config, State, Parser, step, visit, run}

abbrev pub in_state : State → List ℕ → List ℕ → ℕ → ℕ → Config → Parser
in_state state key value struct_layer iterable_layer conf = record {
  state = state;
  conf = conf;
  key = key;
  value = value;
  nested_struct_layer = struct_layer;
  nested_iterable_layer = iterable_layer;
}

-- Between two entries.
abbrev pub ready : Config → Parser
ready conf = in_state State.init [] [] 0 0 conf

-- A character of a key, and one of a number or a word, are none of those that have a meaning there.
abbrev pub is_key_char : ℕ → Bool
is_key_char c = not (is_blank_char c) && not (c == b',' || c == b'{' || c == 34) && not (c == b':')

abbrev pub is_word_char : ℕ → Bool
is_word_char c = not (c == b',' || c == b'}' || c == 34 || is_blank_char c)

-- The text of a string behind its first quote: it ends with the first quote that no backslash stands
-- before.
abbrev pub IsString : ℕ → List ℕ → Type 0
IsString prev [] = ⊥
IsString prev (c ∷ []) = (c ≡ 34) × (prev ≢ 92)
IsString prev (c ∷ d ∷ ds) = ((c == 34 && not (prev == 92)) ≡ false) × IsString c (d ∷ ds)

-- The text behind an opening bracket, with so many levels open: it ends where the last one closes.
abbrev pub IsClosed : ℕ → ℕ → ℕ → List ℕ → Type 0
IsClosed opens closes layer [] = ⊥
IsClosed opens closes layer (c ∷ []) = (c ≡ closes) × (layer ≡ 1)
IsClosed opens closes layer (c ∷ d ∷ ds) =
    ((nested opens closes c layer == 0) ≡ false)
    × IsClosed opens closes (nested opens closes c layer) (d ∷ ds)

-- The texts of values.
pub data IsValue : List ℕ → Type 0 where
  word :
      (c : ℕ) (cs : List ℕ)
      → is_word_char c ≡ true
      → (c == b'{' || c == b'[') ≡ false
      → AllAre is_word_char cs
      → IsValue (c ∷ cs)
  string : (cs : List ℕ) → IsString 34 cs → IsValue (34 ∷ cs)
  struct : (cs : List ℕ) → IsClosed b'{' b'}' 1 cs → IsValue (b'{' ∷ cs)
  iterable : (cs : List ℕ) → IsClosed b'[' b']' 1 cs → IsValue (b'[' ∷ cs)

-- One character in each state.
module _ (prev c : ℕ) (k done : List ℕ) (conf : Config) where
  visit-key :
      is_key_char c ≡ true
      → visit prev c (in_state State.init done [] 0 0 conf)
        ≡ in_state State.init (done ++ c ∷ []) [] 0 0 conf
  unfolding visit step
  visit-key h = ground (arith, h)

  visit-word :
      is_word_char c ≡ true
      → visit prev c (in_state State.parse_fundamental k done 0 0 conf)
        ≡ in_state State.parse_fundamental k (done ++ c ∷ []) 0 0 conf
  unfolding visit step
  visit-word h = ground (arith, h)

  visit-word_end :
      (c == b',' || c == b'}' || is_blank_char c) ≡ true
      → visit prev c (in_state State.parse_fundamental k done 0 0 conf) ≡ ready (insert k done conf)
  unfolding visit step
  visit-word_end h = ground (arith, h)

  pub visit-string :
      (c == 34 && not (prev == 92)) ≡ false
      → visit prev c (in_state State.parse_string k done 0 0 conf)
        ≡ in_state State.parse_string k (done ++ c ∷ []) 0 0 conf
  unfolding visit step
  visit-string h = ground (arith, h)

  visit-string_end :
      (c == 34 && not (prev == 92)) ≡ true
      → visit prev c (in_state State.parse_string k done 0 0 conf)
        ≡ ready (insert k (done ++ c ∷ []) conf)
  unfolding visit step
  visit-string_end h = ground (arith, h)

  visit-struct :
      (layer : ℕ)
      → (nested b'{' b'}' c layer == 0) ≡ false
      → visit prev c (in_state State.parse_struct k done layer 0 conf)
        ≡ in_state State.parse_struct k (done ++ c ∷ []) (nested b'{' b'}' c layer) 0 conf
  unfolding visit step
  visit-struct layer h = ground (arith, h)

  visit-struct_end :
      c ≡ b'}'
      → visit prev c (in_state State.parse_struct k done 1 0 conf)
        ≡ ready (insert k (done ++ c ∷ []) conf)
  unfolding visit step
  visit-struct_end h = rw h refl

  visit-iterable :
      (layer : ℕ)
      → (nested b'[' b']' c layer == 0) ≡ false
      → visit prev c (in_state State.parse_iterable k done 0 layer conf)
        ≡ in_state State.parse_iterable k (done ++ c ∷ []) 0 (nested b'[' b']' c layer) conf
  unfolding visit step
  visit-iterable layer h = ground (arith, h)

  visit-iterable_end :
      c ≡ b']'
      → visit prev c (in_state State.parse_iterable k done 0 1 conf)
        ≡ ready (insert k (done ++ c ∷ []) conf)
  unfolding visit step
  visit-iterable_end h = rw h refl

shift : (done : List ℕ) (c : ℕ) (cs : List ℕ) → (done ++ c ∷ []) ++ cs ≡ done ++ c ∷ cs
shift done c cs = append_assoc done (c ∷ []) cs

visit-key_blank :
    (prev c : ℕ) (key : List ℕ) (conf : Config)
    → is_blank_char c ≡ true
    → visit prev c (in_state State.init key [] 0 0 conf) ≡ in_state State.init key [] 0 0 conf
unfolding visit step
visit-key_blank prev c key conf h = ground (arith, h)

visit-value_blank :
    (prev c : ℕ) (key : List ℕ) (conf : Config)
    → is_blank_char c ≡ true
    → visit prev c (in_state State.parse_value key [] 0 0 conf)
      ≡ in_state State.parse_value key [] 0 0 conf
unfolding visit step
visit-value_blank prev c key conf h = ground (arith, h)

-- Blanks in front of a colon.
run-colon :
    (prev : ℕ) (blank key rest : List ℕ) (conf : Config)
    → AllAre is_blank_char blank
    → run prev (blank ++ b':' ∷ rest) (in_state State.init key [] 0 0 conf)
      ≡ run b':' rest (in_state State.parse_value key [] 0 0 conf)
unfolding run visit step
run-colon prev [] key rest conf h = refl
run-colon prev (c ∷ cs) key rest conf h =
    ap (run c (cs ++ b':' ∷ rest)) (visit-key_blank prev c key conf h.0)
    ∙ run-colon c cs key rest conf h.1

-- Blanks in front of a value.
pub run-value_blanks :
    (prev : ℕ) (blank key rest : List ℕ) (conf : Config)
    → AllAre is_blank_char blank
    → (p : ℕ) × (run prev (blank ++ rest) (in_state State.parse_value key [] 0 0 conf)
        ≡ run p rest (in_state State.parse_value key [] 0 0 conf))
unfolding run
run-value_blanks prev [] key rest conf h = (prev, refl)
run-value_blanks prev (c ∷ cs) key rest conf h =
    let (p, e) = run-value_blanks c cs key rest conf h.1 in
    (p, ap (run c (cs ++ rest)) (visit-value_blank prev c key conf h.0) ∙ e)

pub run-key :
    (prev : ℕ) (cs done blank rest : List ℕ) (conf : Config)
    → AllAre is_key_char cs
    → AllAre is_blank_char blank
    → run prev (cs ++ 34 ∷ (blank ++ b':' ∷ rest)) (in_state State.init done [] 0 0 conf)
      ≡ run b':' rest (in_state State.parse_value (done ++ cs) [] 0 0 conf)
unfolding run visit step
run-key prev [] done blank rest conf h b =
    rw (append-nil done) (run-colon 34 blank done rest conf b)
run-key prev (c ∷ cs) done blank rest conf h b =
    ap (run c (cs ++ 34 ∷ (blank ++ b':' ∷ rest))) (visit-key prev c [] done conf h.0)
    ∙ rw (← shift done c cs) (run-key c cs (done ++ c ∷ []) blank rest conf h.1 b)

pub run-word :
    (prev : ℕ) (k cs done rest : List ℕ) (d : ℕ) (conf : Config)
    → AllAre is_word_char cs
    → (d == b',' || d == b'}' || is_blank_char d) ≡ true
    → run prev (cs ++ d ∷ rest) (in_state State.parse_fundamental k done 0 0 conf)
      ≡ run d rest (ready (insert k (done ++ cs) conf))
unfolding run
run-word prev k [] done rest d conf h e =
    ap (run d rest) (visit-word_end prev d k done conf e) ∙ rw (append-nil done) refl
run-word prev k (c ∷ cs) done rest d conf h e =
    ap (run c (cs ++ d ∷ rest)) (visit-word prev c k done conf h.0)
    ∙ rw (← shift done c cs) (run-word c k cs (done ++ c ∷ []) rest d conf h.1 e)

pub run-string :
    (prev : ℕ) (k cs done rest : List ℕ) (conf : Config)
    → IsString prev cs
    → run prev (cs ++ rest) (in_state State.parse_string k done 0 0 conf)
      ≡ run 34 rest (ready (insert k (done ++ cs) conf))
unfolding run
run-string prev k [] done rest conf h = absurd h
run-string prev k (c ∷ []) done rest conf h =
    ap (run c rest) (visit-string_end prev c k done conf (ground (arith, h.0, h.1))) ∙ rw h.0 refl
run-string prev k (c ∷ d ∷ ds) done rest conf h =
    ap (run c (d ∷ ds ++ rest)) (visit-string prev c k done conf h.0)
    ∙ rw (← shift done c (d ∷ ds)) (run-string c k (d ∷ ds) (done ++ c ∷ []) rest conf h.1)

pub run-struct :
    (prev layer : ℕ) (k cs done rest : List ℕ) (conf : Config)
    → IsClosed b'{' b'}' layer cs
    → run prev (cs ++ rest) (in_state State.parse_struct k done layer 0 conf)
      ≡ run b'}' rest (ready (insert k (done ++ cs) conf))
unfolding run
run-struct prev layer k [] done rest conf h = absurd h
run-struct prev layer k (c ∷ []) done rest conf h =
    rw h.1 (ap (run c rest) (visit-struct_end prev c k done conf h.0) ∙ rw h.0 refl)
run-struct prev layer k (c ∷ d ∷ ds) done rest conf h =
    ap (run c (d ∷ ds ++ rest)) (visit-struct prev c k done conf layer h.0)
    ∙ rw (← shift done c (d ∷ ds))
        (run-struct c (nested b'{' b'}' c layer) k (d ∷ ds) (done ++ c ∷ []) rest conf h.1)

pub run-iterable :
    (prev layer : ℕ) (k cs done rest : List ℕ) (conf : Config)
    → IsClosed b'[' b']' layer cs
    → run prev (cs ++ rest) (in_state State.parse_iterable k done 0 layer conf)
      ≡ run b']' rest (ready (insert k (done ++ cs) conf))
unfolding run
run-iterable prev layer k [] done rest conf h = absurd h
run-iterable prev layer k (c ∷ []) done rest conf h =
    rw h.1 (ap (run c rest) (visit-iterable_end prev c k done conf h.0) ∙ rw h.0 refl)
run-iterable prev layer k (c ∷ d ∷ ds) done rest conf h =
    ap (run c (d ∷ ds ++ rest)) (visit-iterable prev c k done conf layer h.0)
    ∙ rw (← shift done c (d ∷ ds))
        (run-iterable c (nested b'[' b']' c layer) k (d ∷ ds) (done ++ c ∷ []) rest conf h.1)
