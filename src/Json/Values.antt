-- ===== src/Json/Values.antt =====
-- The texts of strings and numbers, as a browser writes them, and what the readers make of them.
use new_rojcpp.Prelude.{
  ℕ, ◌+◌, ◌-◌, ◌^◌, ◌<◌, ◌≡◌, ◌≢◌, refl, sym, ap, ◌∙◌, List, [], ◌∷◌, ◌++◌, map, some, false, not,
  ◌&&◌, ◌||◌, Bool, leb, ◌==◌, ltb, if◌then◌else◌, arith, Bool-cases, inl, inr, append-nil,
  append_assoc,
}
use new_rojcpp.Prelude.Decimal.{
  decimal, digits, digits-value, digits-AreBelow, digits_value, digits_value-map, AreBelow,
  reverse-digits,
}
use new_rojcpp.Json.Text.{unescape_string, unescape_from, unescaped}
use new_rojcpp.Json.Parse.Reading.{IsValue, word, string, IsString, is_word_char}
use new_rojcpp.Prelude.Text.{AllAre}
use new_rojcpp.Json.Object.{
  is_string, is_int, text, number, without_back, read_string, read_int, positive, is_space,
  string_to_value,
}
use mathlib.Core.List.{reverse}

-- The escapes of a browser, for texts without other control characters.
abbrev pub escaped : ℕ → List ℕ
escaped c =
    if c == 10
    then 92 ∷ b'n' ∷ []
    else if c == 13
    then 92 ∷ b'r' ∷ []
    else if c == 9
    then 92 ∷ b't' ∷ []
    else if c == 34
    then 92 ∷ 34 ∷ []
    else if c == 92
    then 92 ∷ 92 ∷ []
    else c ∷ []

abbrev pub escape : List ℕ → List ℕ
escape [] = []
escape (c ∷ cs) = escaped c ++ escape cs

abbrev pub quoted : List ℕ → List ℕ
quoted s = 34 ∷ (escape s ++ 34 ∷ [])

-- The control characters that `escaped` escapes as a browser does: line ends and tabs. A browser
-- escapes every other one in a way that `unescape_string` does not know.
abbrev pub is_plain_char : ℕ → Bool
is_plain_char c = leb 32 c || (c == 9 || (c == 10 || c == 13))

-- The last character is not a backslash.
abbrev pub EndsPlain : List ℕ → Type 0
EndsPlain [] = Unit
EndsPlain (c ∷ []) = c ≢ 92
EndsPlain (c ∷ d ∷ ds) = EndsPlain (d ∷ ds)

-- What `escaped` makes of a character: a pair that is read back, or the character.
pub data Escape (c : ℕ) : List ℕ → Type 0 where
  pair : (x : ℕ) → unescaped x ≡ c ∷ [] → (x ≡ 92 → c ≡ 92) → Escape c (92 ∷ x ∷ [])
  plain : (c == 92) ≡ false → (c == 34) ≡ false → Escape c (c ∷ [])

-- One test of `escaped`.
escaped-step :
    (c k x : ℕ) (rest : List ℕ)
    → unescaped x ≡ k ∷ []
    → (x ≡ 92 → k ≡ 92)
    → ((c == k) ≡ false → Escape c rest)
    → Escape c (if c == k then 92 ∷ x ∷ [] else rest)
escaped-step c k x rest u n other = elim (Bool-cases (c == k)) [
  | inl e ↦
      let same : c ≡ k = ground (arith, e) in
      rw e (pair x (u ∙ ap (λ d. d ∷ []) (sym same)) (λ p. same ∙ n p))
  | inr e ↦ rw e (other e)
]

pub escaped-cases : (c : ℕ) → Escape c (escaped c)
escaped-cases c =
    escaped-step c 10 b'n' _ refl (λ p. absurd (omega (arith, p)))
      (λ _.
        escaped-step c 13 b'r' _ refl (λ p. absurd (omega (arith, p)))
          (λ _.
            escaped-step c 9 b't' _ refl (λ p. absurd (omega (arith, p)))
              (λ _.
                escaped-step c 34 34 _ refl (λ p. absurd (omega (arith, p)))
                  (λ q. escaped-step c 92 92 _ refl (λ p. refl) (λ b. plain b q)))))

unescape-step :
    (c : ℕ) (t rest : List ℕ)
    → Escape c t
    → unescape_from false (t ++ rest) ≡ c ∷ unescape_from false rest
unfolding unescape_from
unescape-step c t rest (pair x u n) = rw u refl
unescape-step c t rest (plain b q) = rw (unescape_from, b) refl

unescape-escape : (s : List ℕ) → unescape_string (escape s) ≡ s
unfolding unescape_from
unescape-escape [] = refl
unescape-escape (c ∷ cs) =
    unescape-step c (escaped c) (escape cs) (escaped-cases c) ∙ ap (◌∷◌ c) (unescape-escape cs)

-- What may stand before the closing quote.
abbrev Closable : ℕ → List ℕ → Type 0
Closable prev [] = prev ≢ 92
Closable prev (c ∷ cs) = EndsPlain (c ∷ cs)

Closable-next : (c x : ℕ) (cs : List ℕ) → (x ≡ 92 → c ≡ 92) → EndsPlain (c ∷ cs) → Closable x cs
Closable-next c x [] n h = λ p. h (n p)
Closable-next c x (d ∷ ds) n h = h

IsString-cons :
    (prev c : ℕ) (cs : List ℕ)
    → (c == 34 && not (prev == 92)) ≡ false
    → IsString c cs
    → IsString prev (c ∷ cs)
IsString-cons prev c [] e h = absurd h
IsString-cons prev c (d ∷ ds) e h = (e, h)

IsString-step :
    (prev c : ℕ) (t cs : List ℕ)
    → Escape c t
    → EndsPlain (c ∷ cs)
    → ((last : ℕ) → Closable last cs → IsString last (escape cs ++ 34 ∷ []))
    → IsString prev (t ++ (escape cs ++ 34 ∷ []))
IsString-step prev c t cs (pair x u n) h next =
    let rest = escape cs ++ 34 ∷ [] in
    IsString-cons prev 92 (x ∷ rest) refl
      (IsString-cons 92 x rest (ground arith) (next x (Closable-next c x cs n h)))
IsString-step prev c t cs (plain b q) h next =
    IsString-cons prev c (escape cs ++ 34 ∷ []) (ground (arith, q))
      (next c (Closable-next c c cs (λ p. p) h))

quoted-IsString : (prev : ℕ) (s : List ℕ) → Closable prev s → IsString prev (escape s ++ 34 ∷ [])
quoted-IsString prev [] h = (refl, h)
quoted-IsString prev (c ∷ cs) h =
    rw (append_assoc (escaped c) (escape cs) (34 ∷ []))
      (IsString-step prev c (escaped c) cs (escaped-cases c) h (λ last. quoted-IsString last cs))

Closable-first : (s : List ℕ) → EndsPlain s → Closable 34 s
Closable-first [] h = λ p. absurd (omega (arith, p))
Closable-first (c ∷ cs) h = h

-- A quoted text is a value, and its reader gives the text back.
pub quoted-IsValue : (s : List ℕ) → EndsPlain s → IsValue (quoted s)
quoted-IsValue s h = string (escape s ++ 34 ∷ []) (quoted-IsString 34 s (Closable-first s h))

without_back-quote : (c : ℕ) (cs : List ℕ) → without_back c (cs ++ 34 ∷ []) ≡ c ∷ cs
without_back-quote c [] = refl
without_back-quote c (d ∷ ds) = ap (◌∷◌ c) (without_back-quote d ds)

read_string-quote : (t : List ℕ) → read_string (34 ∷ (t ++ 34 ∷ [])) ≡ some (unescape_string t)
unfolding read_string unescape_from
read_string-quote [] = refl
read_string-quote (c ∷ cs) = ap (λ t. some (unescape_string t)) (without_back-quote c cs)

pub string_to_value-quoted : (s : List ℕ) → string_to_value is_string (quoted s) ≡ some (text s)
unfolding string_to_value
string_to_value-quoted s =
    rw (string_to_value, read_string-quote (escape s), unescape-escape s) refl

-- A bit pattern as an `int` in decimal.
abbrev pub int_text : ℕ → List ℕ
int_text n = if ltb n (2 ^ 31) then decimal n else b'-' ∷ decimal (2 ^ 32 - n)

decimal-AllAre : (ds : List ℕ) → AreBelow 10 ds → AllAre is_word_char (map (λ d. 48 + d) ds)
decimal-AllAre [] h = tt
decimal-AllAre (d ∷ ds) h = (ground (arith, h.0), decimal-AllAre ds h.1)

AreBelow-eq : {xs ys : List ℕ} → xs ≡ ys → AreBelow 10 xs → AreBelow 10 ys
AreBelow-eq e h = rw (← e) h

-- The first digit and the others.
decimal-first :
    (n : ℕ)
    → (d : ℕ) × (ds : List ℕ) × (decimal n ≡ (48 + d) ∷ map (λ x. 48 + x) ds) × AreBelow 10 (d ∷ ds)
decimal-first n =
    let (d, ds, e) = reverse-digits n in
    (d, ds, ap (map (λ x. 48 + x)) e, AreBelow-eq e (digits-AreBelow n))

decimal-IsValue : (n : ℕ) → IsValue (decimal n)
decimal-IsValue n =
    let (d, ds, e, h) = decimal-first n in
    rw e (
      word (48 + d) (map (λ x. 48 + x) ds) (ground (arith, h.0)) (ground (arith, h.0))
        (decimal-AllAre ds h.1))

pub int_text-IsValue : (n : ℕ) → IsValue (int_text n)
int_text-IsValue n = elim (Bool-cases (ltb n (2 ^ 31))) [
  | inl e ↦ rw e (decimal-IsValue n)
  | inr e ↦ rw e (
      word b'-' (decimal (2 ^ 32 - n)) refl refl
        (decimal-AllAre (reverse (digits (2 ^ 32 - n))) (digits-AreBelow (2 ^ 32 - n))))
]

digits_value-decimal : (n : ℕ) → digits_value 0 (decimal n) ≡ n
digits_value-decimal n =
    ap (digits_value 0) (sym (append-nil (decimal n)))
    ∙ digits_value-map 0 (reverse (digits n)) [] (digits-AreBelow n) tt
    ∙ digits-value n

read_int-decimal : (n : ℕ) → read_int (decimal n) ≡ some (positive n)
unfolding read_int
read_int-decimal n =
    let (d, ds, e, h) = decimal-first n in
    let cs = map (λ x. 48 + x) ds in
    let v : digits_value 0 ((48 + d) ∷ cs) ≡ n = rw (← e) (digits_value-decimal n) in
    let space : is_space (48 + d) ≡ false = ground (arith, h.0) in
    let minus : (48 + d == b'-') ≡ false = ground arith in
    let plus : (48 + d == b'+') ≡ false = ground arith in
    rw (e, read_int, space, minus, plus, v) refl

pub string_to_value-int_text :
    (n : ℕ) → n < 2 ^ 32 → string_to_value is_int (int_text n) ≡ some (number n)
unfolding string_to_value read_int
string_to_value-int_text n h = elim (Bool-cases (ltb n (2 ^ 31))) [
  | inl e ↦ rw (e, string_to_value, read_int-decimal n) (rw e refl)
  | inr e ↦ rw (e, digits_value-decimal (2 ^ 32 - n)) (ground (arith, e, h))
]
