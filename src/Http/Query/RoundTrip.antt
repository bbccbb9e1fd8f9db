-- ===== src/Http/Query/RoundTrip.antt =====
-- request::parse_query on query strings that are put together from fields.
use new_rojcpp.Prelude.{
  ℕ, suc, ◌+◌, ◌-◌, ◌≡◌, ◌≢◌, refl, sym, ap, ◌∙◌, inl, inr, List, [], ◌∷◌, ◌++◌, Option, none, some,
  true, false, arith, length, drop, drop_add, drop_append, take_append, length-drop, append-nil,
  take_all, ◌<◌, ◌==◌, if◌then◌else◌, Bool-cases, Option-cases,
}
use new_rojcpp.Prelude.Dict.{Eq, lookup, emplace, bytes_eq}
use new_rojcpp.Http.Strings.{IsTrimmed, trim_of_IsTrimmed}
use new_rojcpp.Http.Query.{Scan, slice, step, scan, finish, parse_query}

-- Neither '=' nor '&'.
abbrev pub IsPlain : List ℕ → Type 0
IsPlain [] = Unit
IsPlain (c ∷ cs) = (c ≢ 61) × (c ≢ 38) × IsPlain cs

pub record IsField (f : List ℕ × List ℕ) : Type 0 where
  pub plain_key : IsPlain f.0
  pub plain_value : IsPlain f.1
  pub trimmed_key : IsTrimmed f.0
  pub trimmed_value : IsTrimmed f.1

abbrev pub AreFields : List (List ℕ × List ℕ) → Type 0
AreFields [] = Unit
AreFields (f ∷ fs) = IsField f × AreFields fs

-- `key=value` pairs, joined by '&', from the first one on.
abbrev pub print_query : List ℕ × List ℕ → List (List ℕ × List ℕ) → List ℕ
print_query (k, v) [] = k ++ 61 ∷ v
print_query (k, v) (f ∷ fs) = k ++ 61 ∷ (v ++ 38 ∷ print_query f fs)

abbrev or_else : Option (List ℕ) → Option (List ℕ) → Option (List ℕ)
or_else none o = o
or_else (some v) o = some v

lookup-emplace :
    (k j v : List ℕ) (m : List (List ℕ × List ℕ))
    → lookup j (emplace k v m) ≡ or_else (lookup j m) (lookup j ((k, v) ∷ []))
unfolding emplace lookup
lookup-emplace k j v m = elim (Option-cases (lookup k m)) [
  | inl e ↦ rw (e, emplace) (found e)
  | inr (w, e) ↦ rw (e, emplace) (kept w e)
]
  where
    E : Eq (List ℕ)
    E = bytes_eq

    found :
        lookup k m ≡ none
        → (if E.beq k j then some v else lookup j m)
          ≡ or_else (lookup j m) (if E.beq k j then some v else none)
    found e = elim (Bool-cases (E.beq k j)) [
      | inl b ↦ let same : k ≡ j = (E.beq_iff k j).0 b in rw (b, ← same, e) refl
      | inr b ↦ ground (arith, b)
    ]

    kept :
        (w : List ℕ)
        → lookup k m ≡ some w
        → lookup j m ≡ or_else (lookup j m) (if E.beq k j then some v else none)
    kept w e = elim (Bool-cases (E.beq k j)) [
      | inl b ↦ let same : k ≡ j = (E.beq_iff k j).0 b in rw (b, ← same, e) refl
      | inr b ↦ ground (arith, b)
    ]

or_else_cons :
    (k j v : List ℕ) (o : Option (List ℕ)) (m : List (List ℕ × List ℕ))
    → or_else (or_else o (lookup j ((k, v) ∷ []))) (lookup j m) ≡ or_else o (lookup j ((k, v) ∷ m))
unfolding lookup
or_else_cons k j v o m = ground arith

scan-plain :
    (str seg rest : List ℕ) (i : ℕ) (s : Scan)
    → IsPlain seg
    → scan str (seg ++ rest) i s ≡ scan str rest (i + length seg) s
unfolding scan step
scan-plain str [] rest i s h = ap (λ n. scan str rest n s) (omega arith)
scan-plain str (c ∷ cs) rest i s h =
    let e : (c == 61) ≡ false = ground arith in
    let e' : (c == 38) ≡ false = ground arith in
    rw (scan, e, e')
      (scan-plain str cs rest (suc i) s h.2 ∙ ap (λ n. scan str rest n s) (omega arith))

slice-segment :
    (str seg rest : List ℕ) (pos : ℕ)
    → drop pos str ≡ seg ++ rest
    → slice str pos (pos + length seg) ≡ seg
unfolding slice
slice-segment str seg rest pos e =
    let n : pos + length seg - pos ≡ length seg = omega arith in
    rw (n, e, slice) (take_append seg rest)

-- A key and its '=', read from the position where the key begins.
scan-key :
    (str k rest : List ℕ) (s : Scan)
    → IsPlain k
    → IsTrimmed k
    → drop s.pos str ≡ k ++ 61 ∷ rest
    → scan str (k ++ 61 ∷ rest) s.pos s
      ≡ scan str rest (s.pos + length k + 1) (record s { key = k; pos = s.pos + length k + 1 })
unfolding scan step
scan-key str k rest s p t e =
    scan-plain str k (61 ∷ rest) s.pos s p
    ∙ rw (slice-segment str k (61 ∷ rest) s.pos e, trim_of_IsTrimmed k t)
        (ap (λ n. scan str rest n (record s { key = k; pos = s.pos + length k + 1 })) (omega arith))

-- A value and its '&'.
scan-value :
    (str v rest : List ℕ) (s : Scan)
    → IsPlain v
    → IsTrimmed v
    → drop s.pos str ≡ v ++ 38 ∷ rest
    → scan str (v ++ 38 ∷ rest) s.pos s
      ≡ scan str rest
          (s.pos + length v + 1)
          (record s { query_map = emplace s.key v s.query_map; pos = s.pos + length v + 1 })
unfolding scan step
scan-value str v rest s p t e =
    scan-plain str v (38 ∷ rest) s.pos s p
    ∙ rw (slice-segment str v (38 ∷ rest) s.pos e, trim_of_IsTrimmed v t)
        (ap
          (λ n.
            scan str rest n
              (record s { query_map = emplace s.key v s.query_map; pos = s.pos + length v + 1 }))
          (omega arith))

finish_last :
    (str v : List ℕ) (s : Scan)
    → 0 < s.pos
    → IsTrimmed v
    → drop s.pos str ≡ v
    → finish str s ≡ emplace s.key v s.query_map
unfolding finish slice
finish_last str v s h t e =
    let not_first : (s.pos == 0) ≡ false = ground arith in
    elim (Bool-cases (length str - s.pos == 0)) [
      | inl b ↦ rw (not_first, finish, b) (ap (λ w. emplace s.key w s.query_map) (nothing b))
      | inr b ↦
          rw (not_first, finish, b, e, take_all (length str - s.pos) v whole, trim_of_IsTrimmed v t)
            refl
    ]
  where
    whole : length str - s.pos ≡ length v
    whole = omega (arith, length-drop s.pos str, ap length e)

    nothing : (length str - s.pos == 0) ≡ true → ◌≡◌ {A = List ℕ} [] v
    nothing b = ground (arith, length-drop s.pos str, ap length e)

-- A value at the end of the text.
finish-value :
    (str v : List ℕ) (s : Scan)
    → 0 < s.pos
    → IsPlain v
    → IsTrimmed v
    → drop s.pos str ≡ v
    → finish str (scan str v s.pos s) ≡ emplace s.key v s.query_map
unfolding scan
finish-value str v s h p t e =
    ap (λ w. finish str (scan str w s.pos s)) (sym (append-nil v))
    ∙ ap (finish str) (scan-plain str v [] s.pos s p)
    ∙ finish_last str v s h t e

-- Behind a piece of the text and the character that ends it.
drop-behind :
    (str seg rest : List ℕ) (c pos : ℕ)
    → drop pos str ≡ seg ++ c ∷ rest
    → drop (pos + length seg + 1) str ≡ rest
drop-behind str seg rest c pos e =
    drop_add (pos + length seg) 1 str
    ∙ ap (drop 1)
        (drop_add pos (length seg) str ∙ ap (drop (length seg)) e ∙ drop_append seg (c ∷ rest))

-- From the position of a field to the end, every field is entered.
fields-lookup :
    (str j : List ℕ) (f : List ℕ × List ℕ) (fs : List (List ℕ × List ℕ)) (s : Scan)
    → AreFields (f ∷ fs)
    → drop s.pos str ≡ print_query f fs
    → lookup j (finish str (scan str (print_query f fs) s.pos s))
      ≡ or_else (lookup j s.query_map) (lookup j (f ∷ fs))
fields-lookup str j (k, v) [] s h e =
    ap (λ r. lookup j (finish str r)) (scan-key str k v s h.0.plain_key h.0.trimmed_key e)
    ∙ ap (lookup j) (
        finish-value str v (record s { key = k; pos = s.pos + length k + 1 }) (omega arith)
          h.0.plain_value h.0.trimmed_value (drop-behind str k v 61 s.pos e))
    ∙ lookup-emplace k j v s.query_map
fields-lookup str j (k, v) (f ∷ fs) s h e =
    ap (λ r. lookup j (finish str r)) (scan-key str k _ s h.0.plain_key h.0.trimmed_key e)
    ∙ ap (λ r. lookup j (finish str r)) (scan-value str v _ s1 h.0.plain_value h.0.trimmed_value e1)
    ∙ fields-lookup str j f fs s2 h.1 (drop-behind str v _ 38 s1.pos e1)
    ∙ ap (λ o. or_else o (lookup j (f ∷ fs))) (lookup-emplace k j v s.query_map)
    ∙ or_else_cons k j v (lookup j s.query_map) (f ∷ fs)
  where
    s1 : Scan
    s1 = record s { key = k; pos = s.pos + length k + 1 }

    e1 : drop s1.pos str ≡ v ++ 38 ∷ print_query f fs
    e1 = drop-behind str k _ 61 s.pos e

    s2 : Scan
    s2 = record s1 { query_map = emplace k v s.query_map; pos = s1.pos + length v + 1 }

-- For any fields without '=', '&' and blanks at their ends, the parser enters exactly the fields
-- of the query string that is put together from them, and the first of those with one key.
pub parse_query-print_query :
    (f : List ℕ × List ℕ) (fs : List (List ℕ × List ℕ)) (j : List ℕ)
    → AreFields (f ∷ fs)
    → lookup j (parse_query (print_query f fs)) ≡ lookup j (f ∷ fs)
unfolding parse_query lookup
parse_query-print_query f fs j h =
    fields-lookup (print_query f fs) j f fs (record { pos = 0; key = []; query_map = [] }) h refl
