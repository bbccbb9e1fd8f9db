-- ===== src/Db/Query/Run.antt =====
-- The text that a query sends, against one that takes a parameter at each question mark.
use new_rojcpp.Prelude.{
  ℕ, zero, suc, ◌+◌, ◌-◌, ◌≡◌, refl, sym, ap, ◌∙◌, List, [], ◌∷◌, ◌++◌, true, false, ltb, ◌==◌,
  if◌then◌else◌, Bool-cases, inl, inr, arith, length, length-append, take, drop, replicate,
  drop_append, take_append, append-nil, append_assoc, take_all,
}
use new_rojcpp.Db.Query.{
  Query, Result, ok, thrown, overload_cols, must_insert, ◌>>=◌, index_seq, get_mark_size, new_query,
  set_param, assign, bind, push, each_seq, with_rest, get_query, push_all, run,
}

-- Each question mark gives way to the next parameter.
unfoldable pub substitute : List ℕ → List (List ℕ) → List ℕ
substitute [] ps = []
substitute (c ∷ cs) ps = elim (c == 63) [
  | true ↦ elim ps [ [] ↦ c ∷ substitute cs [] | p ∷ qs ↦ p ++ substitute cs qs ]
  | false ↦ c ∷ substitute cs ps
]

-- The characters between two places of a text.
slice-append :
    (front seg s : List ℕ)
    → take (length front + length seg - length front) (drop (length front) (front ++ (seg ++ s)))
      ≡ seg
slice-append front seg s =
    let n : length front + length seg - length front ≡ length seg = omega arith in
    rw (n, drop_append front (seg ++ s)) (take_append seg s)

with_rest-append :
    (front seg last : List ℕ) → with_rest (front ++ seg) (last, length front) ≡ last ++ seg
unfolding with_rest
with_rest-append front seg last = elim (Bool-cases (ltb (length front) (length (front ++ seg)))) [
  | inl more ↦
      let n : length (front ++ seg) - length front ≡ length seg =
        omega (arith, length-append front seg) in
      rw (more, with_rest, n, drop_append front seg)
        (ap (◌++◌ last) (take_all (length seg) seg refl))
  | inr done ↦
      rw (done, with_rest, ends_empty seg (ground (arith, done, length-append front seg)))
        (sym (append-nil last))
]
  where
    ends_empty : (xs : List ℕ) → length xs ≡ 0 → xs ≡ []
    ends_empty [] h = refl
    ends_empty (x ∷ xs) h = absurd (omega arith)

-- One more character is the last of a segment.
segment-append : (seg : List ℕ) (c : ℕ) (rest : List ℕ) → (seg ++ c ∷ []) ++ rest ≡ seg ++ c ∷ rest
segment-append seg c rest = append_assoc seg (c ∷ []) rest

place-append :
    (front seg : List ℕ) (c : ℕ)
    → length front + length (seg ++ c ∷ []) ≡ suc (length front + length seg)
place-append front seg c = omega (arith, length-append seg (c ∷ []))

each_seq-substitute :
    (str front seg s : List ℕ) (ps : List (List ℕ)) (last : List ℕ)
    → str ≡ front ++ (seg ++ s)
    → length ps ≡ get_mark_size s
    → with_rest str (each_seq str (index_seq (length front + length seg) s) ps (length front) last)
      ≡ last ++ (seg ++ substitute s ps)
unfolding index_seq get_mark_size each_seq substitute
each_seq-substitute str front seg [] ps last e n = rw e (with_rest-append front (seg ++ []) last)
each_seq-substitute str front seg (c ∷ cs) [] last e n =
    let m : (c == 63) ≡ false = ground (arith, n) in
    let ih =
      each_seq-substitute str front (seg ++ c ∷ []) cs [] last (rw (segment-append seg c cs) e)
        (ground (arith, n)) in
    rw
      (
        m,
        index_seq,
        substitute,
        ← place-append front seg c,
        ← segment-append seg c (substitute cs []),
      )
      ih
each_seq-substitute str front seg (c ∷ cs) (p ∷ ps) last e n = elim (Bool-cases (c == 63)) [
  | inl m ↦
      let whole : front ++ (seg ++ c ∷ cs) ≡ (front ++ (seg ++ c ∷ [])) ++ cs =
        rw (append_assoc front (seg ++ c ∷ []) cs, segment-append seg c cs) refl in
      let ih =
        each_seq-substitute str (front ++ (seg ++ c ∷ [])) [] cs ps (last ++ seg ++ p) (e ∙ whole)
          (ground (arith, n, m)) in
      let w : length (front ++ (seg ++ c ∷ [])) ≡ suc (length front + length seg) =
        omega (arith, length-append front (seg ++ c ∷ []), length-append seg (c ∷ [])) in
      let w' : length (front ++ (seg ++ c ∷ [])) + 0 ≡ suc (length front + length seg) =
        omega (arith, w) in
      let cut : take (length front + length seg - length front) (drop (length front) str) ≡ seg =
        rw e (slice-append front seg (c ∷ cs)) in
      rw (m, index_seq, each_seq, substitute, cut)
        ((rw (w', w) at ih)
          ∙ append_assoc (last ++ seg) p (substitute cs ps)
          ∙ append_assoc last seg (p ++ substitute cs ps))
  | inr m ↦
      let ih =
        each_seq-substitute str front (seg ++ c ∷ []) cs (p ∷ ps) last
          (rw (segment-append seg c cs) e) (ground (arith, n, m)) in
      rw
        (
          m,
          index_seq,
          substitute,
          ← place-append front seg c,
          ← segment-append seg c (substitute cs (p ∷ ps)),
        )
        ih
]

-- The text of a query whose parameters are all there.
get_query-substitute :
    (q : Query)
    → q.cols ≡ get_mark_size q.query_str
    → length q.params ≡ get_mark_size q.query_str
    → get_query q ≡ ok (substitute q.query_str q.params)
unfolding get_query
get_query-substitute q h n =
    let full : (q.cols == get_mark_size q.query_str) ≡ true = ground (arith, h) in
    rw (full, get_query)
      (ap ok (each_seq-substitute q.query_str [] [] q.query_str q.params [] refl n))

-- A query that has taken some parameters.
abbrev holding : List ℕ → List (List ℕ) → ℕ → Query
holding str ps left = record {
  query_str = str;
  params = ps ++ replicate left [];
  cols = length ps;
  use_fenc = false;
  fenc_char = 0;
}

set_param-append :
    (ps : List (List ℕ)) (t p : List ℕ) (rest : List (List ℕ))
    → set_param (length ps) t (ps ++ p ∷ rest) ≡ (ps ++ t ∷ []) ++ rest
unfolding set_param
set_param-append [] t p rest = refl
set_param-append (q ∷ ps) t p rest = ap (◌∷◌ q) (set_param-append ps t p rest)

push-holding :
    (str t : List ℕ) (ps : List (List ℕ)) (left : ℕ)
    → get_mark_size str ≡ length ps + suc left
    → push t (holding str ps (suc left)) ≡ ok (holding str (ps ++ t ∷ []) left)
unfolding push bind assign
push-holding str t ps left n =
    let room : ltb (length ps) (get_mark_size str) ≡ true = ground (arith, n) in
    let more : length (ps ++ t ∷ []) ≡ suc (length ps) = omega (arith, length-append ps (t ∷ [])) in
    rw (push, bind, assign, room, more, set_param-append ps t [] (replicate left []))

push_full :
    (str t : List ℕ) (ps : List (List ℕ))
    → get_mark_size str ≡ length ps
    → push t (holding str ps 0) ≡ thrown overload_cols
unfolding push bind assign
push_full str t ps n =
    let full : ltb (length ps) (get_mark_size str) ≡ false = ground (arith, n) in
    rw (push, bind, assign, full)

-- What a query gives for some texts.
abbrev pub outcome : List ℕ → List (List ℕ) → Result (List ℕ)
outcome str texts =
    if ltb (get_mark_size str) (length texts)
    then thrown overload_cols
    else if length texts == get_mark_size str
    then ok (substitute str texts)
    else thrown must_insert

push_all-holding :
    (str : List ℕ) (ps ts : List (List ℕ)) (left : ℕ)
    → get_mark_size str ≡ length ps + left
    → (push_all ts (holding str ps left) >>= get_query) ≡ outcome str (ps ++ ts)
unfolding push_all get_query
push_all-holding str ps [] zero n =
    let full : (length ps == get_mark_size str) ≡ true = ground (arith, n) in
    let few : ltb (get_mark_size str) (length ps) ≡ false = ground (arith, n) in
    rw (append-nil ps, few, full)
      (get_query-substitute (record (holding str ps 0) { params = ps }) (omega (arith, n))
        (omega (arith, n)))
push_all-holding str ps [] (suc left) n =
    let early : (length ps == get_mark_size str) ≡ false = ground (arith, n) in
    let few : ltb (get_mark_size str) (length ps) ≡ false = ground (arith, n) in
    rw (append-nil ps, few, early, get_query)
push_all-holding str ps (t ∷ ts) zero n =
    let many : ltb (get_mark_size str) (length (ps ++ t ∷ ts)) ≡ true =
      ground (arith, n, length-append ps (t ∷ ts)) in
    rw (push_all, push_full str t ps (omega (arith, n)), many)
push_all-holding str ps (t ∷ ts) (suc left) n =
    rw (push_all, push-holding str t ps left n)
      (push_all-holding str (ps ++ t ∷ []) ts left (omega (arith, n, length-append ps (t ∷ [])))
        ∙ ap (outcome str) (append_assoc ps (t ∷ []) ts))

-- A query that takes texts one after the other and is then executed sends its text with each
-- question mark replaced by the next of them, as they are, if there is one for each mark; with more
-- of them `<<` throws, and with fewer `get_query`.
pub run-outcome : (str : List ℕ) (texts : List (List ℕ)) → run str texts ≡ outcome str texts
unfolding run new_query
run-outcome str texts = push_all-holding str [] texts (get_mark_size str) (omega arith)
