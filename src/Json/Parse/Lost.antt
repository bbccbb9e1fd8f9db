-- ===== src/Json/Parse/Lost.antt =====
-- A string that `parse` does not see the end of.
use new_rojcpp.Prelude.{
  ℕ, ◌≡◌, refl, sym, ap, ◌∙◌, List, [], ◌∷◌, ◌++◌, false, not, ◌&&◌, ◌==◌, arith, append_assoc,
  append-nil,
}
use new_rojcpp.Json.Parse.{Config, State, step, visit, run, parse, parsed}
use new_rojcpp.Json.Parse.Reading.{in_state, is_key_char, visit-string, run-key}
use new_rojcpp.Prelude.Text.{AllAre}
use new_rojcpp.Json.Parse.RoundTrip.{loose, object_text, trimmed-object, conf_of}
use new_rojcpp.Json.Values.{escape, escaped, quoted, Escape, pair, plain, escaped-cases}

-- No quote that the parser takes for the end.
abbrev IsOpen : ℕ → List ℕ → Type 0
IsOpen prev [] = Unit
IsOpen prev (c ∷ cs) = ((c == 34 && not (prev == 92)) ≡ false) × IsOpen c cs

run-open :
    (prev : ℕ) (k done cs : List ℕ) (conf : Config)
    → IsOpen prev cs
    → conf_of (run prev cs (in_state State.parse_string k done 0 0 conf)) ≡ conf
unfolding run
run-open prev k done [] conf h = refl
run-open prev k done (c ∷ cs) conf h =
    ap (λ p. conf_of (run c cs p)) (visit-string prev c k done conf h.0)
    ∙ run-open c k (done ++ c ∷ []) cs conf h.1

IsOpen-step :
    (prev c : ℕ) (t rest : List ℕ)
    → Escape c t
    → ((last : ℕ) → IsOpen last rest)
    → IsOpen prev (t ++ rest)
IsOpen-step prev c t rest (pair x u n) next = (refl, (ground arith, next x))
IsOpen-step prev c t rest (plain b q) next = (ground (arith, q), next c)

-- The escaped text of a string that ends with a backslash, with the quote and the brace behind it.
escape-IsOpen : (prev : ℕ) (s : List ℕ) → IsOpen prev (escape (s ++ 92 ∷ []) ++ 34 ∷ b'}' ∷ [])
escape-IsOpen prev [] = (refl, (refl, (refl, (refl, tt))))
escape-IsOpen prev (c ∷ s) =
    rw (append_assoc (escaped c) (escape (s ++ 92 ∷ [])) (34 ∷ b'}' ∷ [])) (
      IsOpen-step prev c (escaped c) (escape (s ++ 92 ∷ []) ++ 34 ∷ b'}' ∷ []) (escaped-cases c)
        (λ last. escape-IsOpen last s))

-- An object whose one value is a text that ends with a backslash, escaped as it should be, is read
-- without an error as an object with no entries.
pub parse-lost :
    (k s : List ℕ)
    → AllAre is_key_char k
    → parse (object_text [] ((k, quoted (s ++ 92 ∷ [])) ∷ [])) ≡ parsed []
unfolding run visit step
parse-lost k s h =
    let m : Config = (k, quoted (s ++ 92 ∷ [])) ∷ [] in
    let body = escape (s ++ 92 ∷ []) in
    let shape : (body ++ 34 ∷ []) ++ b'}' ∷ [] ≡ body ++ 34 ∷ b'}' ∷ [] =
      append_assoc body (34 ∷ []) (b'}' ∷ []) in
    ap parse (sym (append-nil (object_text [] m)))
    ∙ trimmed-object [] [] (loose []) m tt tt
    ∙ ap parsed (
        ap conf_of (run-key 34 k [] [] (34 ∷ ((body ++ 34 ∷ []) ++ b'}' ∷ [])) [] h tt)
        ∙ ap (λ t. conf_of (run 34 t (in_state State.parse_string k (34 ∷ []) 0 0 []))) shape
        ∙ run-open 34 k (34 ∷ []) (body ++ 34 ∷ b'}' ∷ []) [] (escape-IsOpen 34 s))
