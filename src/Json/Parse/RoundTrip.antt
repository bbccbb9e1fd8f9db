-- ===== src/Json/Parse/RoundTrip.antt =====
-- Objects that `parse` reads back entry by entry.
use new_rojcpp.Prelude.{
  ℕ, ◌≡◌, refl, sym, ap, ◌∙◌, List, [], ◌∷◌, ◌++◌, Bool, true, false, ◌||◌, ◌==◌, arith,
  append_assoc, append-nil,
}
use new_rojcpp.Prelude.Dict.{insert, bytes_eq, IsMap, insert_new, lookup_of_IsMap}
use new_rojcpp.Json.Text.{is_blank_char}
use new_rojcpp.Json.Parse.{
  Config, State, Parser, step, visit, run, remove_prefix, remove_suffix, back, delimited, parse,
  parsed, entries, serialized_to_string,
}
use new_rojcpp.Json.Parse.Reading.{
  in_state, ready, run-value_blanks, is_key_char, is_word_char, IsValue, word, string, struct,
  iterable, run-key, run-word, run-string, run-struct, run-iterable,
}
use new_rojcpp.Prelude.Text.{AllAre}

-- The blanks of an object: within its braces, in front of its colons and its commas, and behind both.
pub record Blanks : Type 0 where
  pub within : List ℕ
  pub colon : List ℕ
  pub value : List ℕ
  pub comma : List ℕ
  pub next : List ℕ

pub record AreBlanks (b : Blanks) : Type 0 where
  pub within : AllAre is_blank_char b.within
  pub colon : AllAre is_blank_char b.colon
  pub value : AllAre is_blank_char b.value
  pub comma : AllAre is_blank_char b.comma
  pub next : AllAre is_blank_char b.next

abbrev pub members : Blanks → Config → List ℕ
members b [] = b'}' ∷ []
members b ((k, v) ∷ []) =
    34 ∷ (k ++ 34 ∷ (b.colon ++ b':' ∷ (b.value ++ (v ++ (b.within ++ b'}' ∷ [])))))
members b ((k, v) ∷ e ∷ m) =
    34
    ∷ (k
        ++ 34
          ∷ (b.colon
              ++ b':' ∷ (b.value ++ (v ++ (b.comma ++ b',' ∷ (b.next ++ members b (e ∷ m)))))))

abbrev pub spaced_text : Blanks → Config → List ℕ
spaced_text b m = b'{' ∷ (b.within ++ members b m)

-- The same blanks behind every comma and within the braces, and no others.
abbrev pub loose : List ℕ → Blanks
loose blank = record { within = blank; colon = []; value = []; comma = []; next = blank }

abbrev pub object_text : List ℕ → Config → List ℕ
object_text blank m = spaced_text (loose blank) m

abbrev pub AreEntries : Config → Type 0
AreEntries [] = Unit
AreEntries ((k, v) ∷ m) = AllAre is_key_char k × IsValue v × AreEntries m

visit-skip :
    (prev d : ℕ) (conf : Config)
    → (d == b',' || is_blank_char d) ≡ true
    → visit prev d (ready conf) ≡ ready conf
unfolding visit step
visit-skip prev d conf h = ground (arith, h)

visit-brace : (prev : ℕ) (conf : Config) → (visit prev b'}' (ready conf)).conf ≡ conf
unfolding visit step
visit-brace prev conf = refl

visit-word_start :
    (prev c : ℕ) (k : List ℕ) (conf : Config)
    → is_word_char c ≡ true
    → (c == b'{' || c == b'[') ≡ false
    → visit prev c (in_state State.parse_value k [] 0 0 conf)
      ≡ in_state State.parse_fundamental k (c ∷ []) 0 0 conf
unfolding visit step
visit-word_start prev c k conf h e = ground (arith, h, e)

run-blank :
    (prev : ℕ) (blank rest : List ℕ) (conf : Config)
    → AllAre is_blank_char blank
    → (p : ℕ) × (run prev (blank ++ rest) (ready conf) ≡ run p rest (ready conf))
unfolding run
run-blank prev [] rest conf h = (prev, refl)
run-blank prev (c ∷ cs) rest conf h =
    let (p, e) = run-blank c cs rest conf h.1 in
    (p, ap (run c (cs ++ rest)) (visit-skip prev c conf (ground (arith, h.0))) ∙ e)

-- A value and the separator behind it.
run-value :
    (prev : ℕ) (k v rest : List ℕ) (d : ℕ) (conf : Config)
    → IsValue v
    → (d == b',' || is_blank_char d) ≡ true
    → run prev (v ++ d ∷ rest) (in_state State.parse_value k [] 0 0 conf)
      ≡ run d rest (ready (insert k v conf))
unfolding run visit step
run-value prev k v rest d conf (word c cs h e all) s =
    ap (run c (cs ++ d ∷ rest)) (visit-word_start prev c k conf h e)
    ∙ run-word c k cs (c ∷ []) rest d conf all (ground (arith, s))
run-value prev k v rest d conf (string cs h) s =
    run-string 34 k cs (34 ∷ []) (d ∷ rest) conf h
    ∙ ap (run d rest) (visit-skip 34 d (insert k (34 ∷ cs) conf) s)
run-value prev k v rest d conf (struct cs h) s =
    run-struct b'{' 1 k cs (b'{' ∷ []) (d ∷ rest) conf h
    ∙ ap (run d rest) (visit-skip b'}' d (insert k (b'{' ∷ cs) conf) s)
run-value prev k v rest d conf (iterable cs h) s =
    run-iterable b'[' 1 k cs (b'[' ∷ []) (d ∷ rest) conf h
    ∙ ap (run d rest) (visit-skip b']' d (insert k (b'[' ∷ cs) conf) s)

abbrev pub conf_of : Parser → Config
conf_of p = p.conf

-- The last value, with the brace behind it.
run-value_end :
    (prev : ℕ) (k v : List ℕ) (conf : Config)
    → IsValue v
    → conf_of (run prev (v ++ b'}' ∷ []) (in_state State.parse_value k [] 0 0 conf))
      ≡ insert k v conf
unfolding run visit step
run-value_end prev k v conf (word c cs h e all) = ap conf_of (
    ap (run c (cs ++ b'}' ∷ [])) (visit-word_start prev c k conf h e)
    ∙ run-word c k cs (c ∷ []) [] b'}' conf all refl)
run-value_end prev k v conf (string cs h) =
    ap conf_of (run-string 34 k cs (34 ∷ []) (b'}' ∷ []) conf h)
run-value_end prev k v conf (struct cs h) =
    ap conf_of (run-struct b'{' 1 k cs (b'{' ∷ []) (b'}' ∷ []) conf h)
run-value_end prev k v conf (iterable cs h) =
    ap conf_of (run-iterable b'[' 1 k cs (b'[' ∷ []) (b'}' ∷ []) conf h)

-- The last value, with blanks and the brace behind it.
run-last :
    (prev : ℕ) (k v blank : List ℕ) (conf : Config)
    → IsValue v
    → AllAre is_blank_char blank
    → conf_of (run prev (v ++ (blank ++ b'}' ∷ [])) (in_state State.parse_value k [] 0 0 conf))
      ≡ insert k v conf
unfolding run visit step
run-last prev k v [] conf h b = run-value_end prev k v conf h
run-last prev k v (c ∷ cs) conf h b =
    let (p, e) = run-blank c cs (b'}' ∷ []) (insert k v conf) b.1 in
    ap conf_of (run-value prev k v (cs ++ b'}' ∷ []) c conf h (ground (arith, b.0)) ∙ e)

-- A value, and what stands up to the next entry.
run-separated :
    (prev : ℕ) (b : Blanks) (k v rest : List ℕ) (conf : Config)
    → AreBlanks b
    → IsValue v
    → (p : ℕ) × (run prev
          (v ++ (b.comma ++ b',' ∷ (b.next ++ rest)))
          (in_state State.parse_value k [] 0 0 conf)
        ≡ run p rest (ready (insert k v conf)))
unfolding run visit step
run-separated prev b k v rest conf a h =
    let (p, e) = run-blank b',' b.next rest (insert k v conf) a.next in
    (p, run-commas prev k v b.comma (b.next ++ rest) conf h a.comma ∙ e)
  where
    run-commas :
        (prev : ℕ) (k v blank rest : List ℕ) (conf : Config)
        → IsValue v
        → AllAre is_blank_char blank
        → run prev (v ++ (blank ++ b',' ∷ rest)) (in_state State.parse_value k [] 0 0 conf)
          ≡ run b',' rest (ready (insert k v conf))
    run-commas prev k v [] rest conf h b = run-value prev k v rest b',' conf h refl
    run-commas prev k v (c ∷ cs) rest conf h b =
        let (p, e) = run-blank c cs (b',' ∷ rest) (insert k v conf) b.1 in
        run-value prev k v (cs ++ b',' ∷ rest) c conf h (ground (arith, b.0))
        ∙ e
        ∙ ap (run b',' rest) (visit-skip p b',' (insert k v conf) refl)

run-members :
    (prev : ℕ) (b : Blanks) (k v : List ℕ) (done m : Config)
    → AreBlanks b
    → AreEntries ((k, v) ∷ m)
    → IsMap (done ++ (k, v) ∷ m)
    → conf_of (run prev (members b ((k, v) ∷ m)) (ready done)) ≡ done ++ (k, v) ∷ m
unfolding run visit step
run-members prev b k v done [] a h u =
    let fresh = insert_new k v done (lookup_of_IsMap k v done [] u) in
    let text = v ++ (b.within ++ b'}' ∷ []) in
    let (p, e) = run-value_blanks b':' b.value k text done a.value in
    ap conf_of (run-key 34 k [] b.colon (b.value ++ text) done h.0 a.colon ∙ e)
    ∙ run-last p k v b.within done h.1 a.within
    ∙ fresh
run-members prev b k v done ((j, w) ∷ m) a h u =
    let fresh = insert_new k v done (lookup_of_IsMap k v done ((j, w) ∷ m) u) in
    let same = append_assoc done ((k, v) ∷ []) ((j, w) ∷ m) in
    let more = members b ((j, w) ∷ m) in
    let text = v ++ (b.comma ++ b',' ∷ (b.next ++ more)) in
    let (p, e) = run-value_blanks b':' b.value k text done a.value in
    let (q, f) = run-separated p b k v more done a h.1 in
    ap conf_of (
      run-key 34 k [] b.colon (b.value ++ text) done h.0 a.colon
      ∙ e
      ∙ f
      ∙ ap (λ c. run q more (ready c)) fresh)
    ∙ run-members q b j w (done ++ (k, v) ∷ []) m a h.2 (rw same u)
    ∙ same

remove_prefix-blank :
    (blank rest : List ℕ)
    → AllAre is_blank_char blank
    → remove_prefix (blank ++ b'{' ∷ rest) ≡ b'{' ∷ rest
unfolding remove_prefix
remove_prefix-blank [] rest h = refl
remove_prefix-blank (c ∷ cs) rest h = rw (remove_prefix, h.0) (remove_prefix-blank cs rest h.1)

remove_suffix-blank : (blank : List ℕ) → AllAre is_blank_char blank → remove_suffix blank ≡ []
unfolding remove_suffix
remove_suffix-blank [] h = refl
remove_suffix-blank (c ∷ cs) h = rw (remove_suffix, remove_suffix-blank cs h.1, h.0) refl

remove_suffix-brace :
    (xs blank : List ℕ)
    → AllAre is_blank_char blank
    → remove_suffix (xs ++ b'}' ∷ blank) ≡ xs ++ b'}' ∷ []
unfolding remove_suffix
remove_suffix-brace [] blank h = rw (remove_suffix, remove_suffix-blank blank h) refl
remove_suffix-brace (x ∷ []) blank h = rw (remove_suffix, remove_suffix-brace [] blank h) refl
remove_suffix-brace (x ∷ y ∷ ys) blank h =
    rw (remove_suffix, remove_suffix-brace (y ∷ ys) blank h) refl

back-append : (c d : ℕ) (xs : List ℕ) → back c (xs ++ d ∷ []) ≡ d
unfolding back
back-append c d [] = refl
back-append c d (x ∷ xs) = back-append x d xs

-- Where the brace that ends the members stands.
abbrev inner : Blanks → Config → List ℕ
inner b [] = []
inner b ((k, v) ∷ []) = 34 ∷ (k ++ 34 ∷ (b.colon ++ b':' ∷ (b.value ++ (v ++ b.within))))
inner b ((k, v) ∷ e ∷ m) =
    34
    ∷ (k
        ++ 34
          ∷ (b.colon ++ b':' ∷ (b.value ++ (v ++ (b.comma ++ b',' ∷ (b.next ++ inner b (e ∷ m)))))))

members-inner :
    (b : Blanks) (after : List ℕ) (m : Config) → members b m ++ after ≡ inner b m ++ b'}' ∷ after
members-inner b after [] = refl
members-inner b after ((k, v) ∷ []) = simp (append_assoc)
members-inner b after ((k, v) ∷ e ∷ m) = simp (append_assoc, members-inner b after (e ∷ m))

delimited-object :
    (t : List ℕ)
    → back b'{' t ≡ b'}'
    → delimited (b'{' ∷ t) ≡ parsed (conf_of (run b'{' t (ready [])))
unfolding delimited run visit step
delimited-object t e = rw (delimited, e) refl

-- The blanks around an object are removed.
pub trimmed-object :
    (before after : List ℕ) (s : Blanks) (m : Config)
    → AllAre is_blank_char before
    → AllAre is_blank_char after
    → parse (before ++ (spaced_text s m ++ after))
      ≡ parsed (conf_of (run b'{' (s.within ++ members s m) (ready [])))
unfolding parse
trimmed-object before after s m b a =
    let xs = s.within ++ inner s m in
    let long : (s.within ++ members s m) ++ after ≡ xs ++ b'}' ∷ after =
      simp (append_assoc, members-inner s after m) in
    let short : xs ++ b'}' ∷ [] ≡ s.within ++ members s m =
      append_assoc s.within (inner s m) (b'}' ∷ [])
      ∙ ap (◌++◌ s.within) (sym (members-inner s [] m) ∙ append-nil (members s m)) in
    ap (λ t. delimited (remove_suffix t))
      (remove_prefix-blank before ((s.within ++ members s m) ++ after) b ∙ ap (◌∷◌ b'{') long)
    ∙ ap delimited (remove_suffix-brace (b'{' ∷ xs) after a)
    ∙ delimited-object (xs ++ b'}' ∷ []) (back-append b'{' b'}' xs)
    ∙ ap (λ t. parsed (conf_of (run b'{' t (ready [])))) short

-- Blanks around an object and within it do not matter: the entries are read back.
pub parse-object :
    (before after k v : List ℕ) (s : Blanks) (m : Config)
    → AllAre is_blank_char before
    → AreBlanks s
    → AllAre is_blank_char after
    → AreEntries ((k, v) ∷ m)
    → IsMap ((k, v) ∷ m)
    → parse (before ++ (spaced_text s ((k, v) ∷ m) ++ after)) ≡ parsed ((k, v) ∷ m)
parse-object before after k v s m b c a h u =
    let (p, e) = run-blank b'{' s.within (members s ((k, v) ∷ m)) [] c.within in
    trimmed-object before after s ((k, v) ∷ m) b a
    ∙ ap (λ q. parsed (conf_of q)) e
    ∙ ap parsed (run-members p s k v [] m c h u)

entries-members : (end : ℕ) (m : Config) → entries end m ++ b'}' ∷ [] ≡ members (loose (end ∷ [])) m
unfolding entries
entries-members end [] = refl
entries-members end ((k, v) ∷ []) = simp (append_assoc)
entries-members end ((k, v) ∷ e ∷ m) = simp (append_assoc, entries-members end (e ∷ m))

written-object :
    (end : ℕ) (k v : List ℕ) (m : Config)
    → is_blank_char end ≡ true
    → AreEntries ((k, v) ∷ m)
    → IsMap ((k, v) ∷ m)
    → parse (b'{' ∷ end ∷ (entries end ((k, v) ∷ m) ++ b'}' ∷ end ∷ [])) ≡ parsed ((k, v) ∷ m)
written-object end k v m e h u =
    let same : entries end ((k, v) ∷ m) ++ b'}' ∷ end ∷ []
        ≡ members (loose (end ∷ [])) ((k, v) ∷ m) ++ end ∷ [] =
      sym (append_assoc (entries end ((k, v) ∷ m)) (b'}' ∷ []) (end ∷ []))
      ∙ ap (λ t. t ++ end ∷ []) (entries-members end ((k, v) ∷ m)) in
    ap (λ t. parse (b'{' ∷ end ∷ t)) same
    ∙ parse-object [] (end ∷ []) k v (loose (end ∷ [])) m tt
        (record { within = (e, tt); colon = tt; value = tt; comma = tt; next = (e, tt) }) (e, tt) h
        u

-- A config with at least one entry, with distinct keys of characters that `parse` keeps in a key, is
-- read back as it was written, whether on one line or on several, if each value is one of these: a
-- word; a text in quotes in which every quote but the last has a backslash before it and the last one
-- has none; a text in braces, or in brackets, in which the one that closes the first is the last
-- character, where those within strings count too.
pub parse-serialized_to_string :
    (first_nested_layer : Bool) (k v : List ℕ) (m : Config)
    → AreEntries ((k, v) ∷ m)
    → IsMap ((k, v) ∷ m)
    → parse (serialized_to_string first_nested_layer ((k, v) ∷ m)) ≡ parsed ((k, v) ∷ m)
unfolding serialized_to_string
parse-serialized_to_string true k v m h u = written-object 10 k v m refl h u
parse-serialized_to_string false k v m h u = written-object b' ' k v m refl h u
