-- ===== src/Db/ConnectionString/Termination.antt =====
-- When parse_connection_string returns, and when it never does.
use new_rojcpp.Prelude.{
  ℕ, zero, suc, ◌≡◌, ◌≢◌, ◌≤◌, ◌<◌, refl, ap, ◌∙◌, List, [], ◌∷◌, ◌++◌, none, some, true, false,
  inl, inr, arith, length, ◌==◌, Bool-cases, Option-cases,
}
use new_rojcpp.Prelude.Cut.{Lacks, cut-cases, cut-append}
use new_rojcpp.Prelude.Dict.{lookup, insert, bytes_eq}
use new_rojcpp.Db.ConnectionString.{
  invalid_property, duplicate_key, no_driver, Result, Properties, ConnectionInfo, is_blank_char,
  skip_blank, trim, unquoted, read_value, skip_separator, read_properties, with_properties,
  parse_connection_string,
}
use new_rojcpp.Db.ConnectionString.Quoting.{escape, go_on, read_properties-quoted}

-- What is left of a text: not longer, and without quotes if the text has none.
record Left (text rest : List ℕ) : Type 0 where
  fits : length rest ≤ length text
  plain : Lacks 39 text → Lacks 39 rest

skip_blank-Left : (text : List ℕ) → Left text (skip_blank text)
unfolding skip_blank
skip_blank-Left [] = record { fits = omega arith; plain = λ h. h }
skip_blank-Left (c ∷ cs) = elim (Bool-cases (is_blank_char c)) [
  | inl e ↦
      let r = skip_blank-Left cs in
      rw (skip_blank, e) record { fits = omega (arith, r.fits); plain = λ h. r.plain h.1 }
  | inr e ↦ rw (skip_blank, e) record { fits = omega arith; plain = λ h. h }
]

-- Nothing, or a semicolon first.
abbrev IsEnd : List ℕ → Type 0
IsEnd [] = Unit
IsEnd (c ∷ cs) = c ≡ 59

-- A value without quotes is read, up to the end or a semicolon.
record ReadsValue (text : List ℕ) : Type 0 where
  value : List ℕ
  rest : List ℕ
  reads : read_value text ≡ some (value, rest)
  left : Left text rest
  ends : IsEnd rest

read_value-ReadsValue : (text : List ℕ) → Lacks 39 text → ReadsValue text
unfolding read_value unquoted
read_value-ReadsValue [] h = record {
  value = [];
  rest = [];
  reads = refl;
  left = record { fits = omega arith; plain = λ k. k };
  ends = tt;
}
read_value-ReadsValue (c ∷ cs) h =
    let q : (c == 39) ≡ false = ground arith in
    elim (cut-cases 59 (c ∷ cs)) [
      | inl e ↦ record {
        value = trim (c ∷ cs);
        rest = [];
        reads = rw (read_value, q, unquoted, e);
        left = record { fits = omega arith; plain = λ k. tt };
        ends = tt;
      }
      | inr (before, after, e, r) ↦ record {
        value = trim before;
        rest = 59 ∷ after;
        reads = rw (read_value, q, unquoted, e);
        left = record {
          fits = omega (arith, r.lengths);
          plain = λ k. (ground arith, r.lacking 39 k);
        };
        ends = refl;
      }
    ]

-- The separator behind such a value is passed.
record Passes (fuel : ℕ) (rest : List ℕ) : Type 0 where
  text : List ℕ
  passes : skip_separator fuel rest ≡ some text
  left : Left rest text

skip_separator-Passes : (fuel : ℕ) (rest : List ℕ) → 0 < fuel → IsEnd rest → Passes fuel rest
unfolding skip_separator
skip_separator-Passes zero rest f e = absurd (omega arith)
skip_separator-Passes (suc fuel) [] f e = record {
  text = [];
  passes = refl;
  left = record { fits = omega arith; plain = λ h. h };
}
skip_separator-Passes (suc fuel) (c ∷ after) f e =
    let b : is_blank_char c ≡ false = ground arith in
    let s : (c == 59) ≡ true = ground arith in
    record {
      text = after;
      passes = rw (skip_separator, b, s);
      left = record { fits = omega arith; plain = λ h. h.1 };
    }

read_properties-returns :
    (fuel : ℕ) (params : Properties) (text : List ℕ)
    → Lacks 39 text
    → length text < fuel
    → (r : Result Properties) × (read_properties fuel params text ≡ some r)
unfolding read_properties
read_properties-returns zero params text h f = absurd (omega arith)
read_properties-returns (suc fuel) params [] h f = (Result.ok params, refl)
read_properties-returns (suc fuel) params (c ∷ cs) h f = elim (cut-cases 61 (c ∷ cs)) [
  | inl e ↦ (Result.thrown invalid_property, rw (read_properties, e))
  | inr (name, after, e, r) ↦
      let b = skip_blank-Left after in
      let v = read_value-ReadsValue (skip_blank after) (b.plain (r.lacking 39 h)) in
      let s = skip_separator-Passes fuel v.rest (omega (arith, r.lengths)) v.ends in
      elim (Option-cases (lookup (trim name) params)) [
        | inr (w, l) ↦ (Result.thrown duplicate_key, rw (read_properties, e, v.reads, l))
        | inl l ↦
            let (q, k) =
              read_properties-returns fuel (insert (trim name) v.value params) s.text
                (s.left.plain (v.left.plain (b.plain (r.lacking 39 h))))
                (omega (arith, r.lengths, b.fits, v.left.fits, s.left.fits)) in
            (q, rw (read_properties, e, v.reads, l, s.passes, k))
      ]
]

-- A connection string without a quote is parsed, or refused with an error, on any fuel above its
-- length: the loops end.
pub parse_connection_string_returns :
    (fuel : ℕ) (cs : List ℕ)
    → Lacks 39 cs
    → length cs < fuel
    → (r : Result ConnectionInfo) × (parse_connection_string fuel cs ≡ some r)
unfolding parse_connection_string
parse_connection_string_returns fuel cs h f = elim (cut-cases 58 cs) [
  | inl e ↦ (Result.thrown no_driver, rw (parse_connection_string, e))
  | inr (driver, rest, e, r) ↦
      let (q, k) =
        read_properties-returns fuel [] rest (r.lacking 39 h) (omega (arith, r.lengths)) in
      (with_properties cs driver q, rw (parse_connection_string, e, k) refl)
]

skip_separator-spins :
    (fuel c : ℕ) (cs : List ℕ)
    → is_blank_char c ≡ false
    → c ≢ 59
    → skip_separator fuel (c ∷ cs) ≡ none
unfolding skip_separator
skip_separator-spins zero c cs b s = refl
skip_separator-spins (suc fuel) c cs b s =
    let e : (c == 59) ≡ false = ground arith in
    rw (skip_separator, b, e, skip_separator-spins fuel c cs b s)

read_properties-spins :
    (fuel c : ℕ) (name value rest : List ℕ)
    → Lacks 61 name
    → is_blank_char c ≡ false
    → c ≢ 59
    → c ≢ 39
    → read_properties fuel [] (name ++ 61 ∷ 39 ∷ (escape value ++ 39 ∷ c ∷ rest)) ≡ none
unfolding read_properties lookup
read_properties-spins zero c name value rest hn b s q = refl
read_properties-spins (suc fuel) c name value rest hn b s q =
    read_properties-quoted fuel [] name value (c ∷ rest) hn q refl
    ∙ ap (go_on fuel (insert (trim name) value [])) (skip_separator-spins fuel c rest b s)

-- Behind the quoted value of the first property a character that is neither a quote, a blank nor a
-- semicolon makes the parser loop for ever, whatever the driver (without ':'), the name (without
-- '='), the value and the rest of the text: no fuel is enough.
pub parse_connection_string_spins :
    (fuel c : ℕ) (driver name value rest : List ℕ)
    → Lacks 58 driver
    → Lacks 61 name
    → is_blank_char c ≡ false
    → c ≢ 59
    → c ≢ 39
    → parse_connection_string fuel
        (driver ++ 58 ∷ (name ++ 61 ∷ 39 ∷ (escape value ++ 39 ∷ c ∷ rest)))
      ≡ none
unfolding parse_connection_string
parse_connection_string_spins fuel c driver name value rest hd hn b s q =
    let text = name ++ 61 ∷ 39 ∷ (escape value ++ 39 ∷ c ∷ rest) in
    rw (
      parse_connection_string,
      cut-append 58 driver text hd,
      read_properties-spins fuel c name value rest hn b s q,
    )
