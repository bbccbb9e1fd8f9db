-- ===== src/Db/ConnectionString/Quoting.antt =====
-- The quotes of a value in a connection string.
use new_rojcpp.Prelude.{
  ℕ, suc, ◌≡◌, ◌≢◌, refl, List, [], ◌∷◌, ◌++◌, Option, none, some, true, false, inl, inr, arith,
  ◌==◌, ==_iff, Bool-cases,
}
use new_rojcpp.Prelude.Cut.{Lacks, cut-append}
use new_rojcpp.Prelude.Dict.{lookup, insert, bytes_eq}
use new_rojcpp.Db.ConnectionString.{
  Result, Properties, put_before, quoted, skip_blank, trim, read_value, skip_separator,
  read_properties,
}

-- A quote inside a value is written twice.
unfoldable pub escape : List ℕ → List ℕ
escape [] = []
escape (c ∷ cs) = elim (c == 39) [ true ↦ 39 ∷ 39 ∷ escape cs | false ↦ c ∷ escape cs ]

-- The text does not go on with a quote.
abbrev pub IsClosed : List ℕ → Type 0
IsClosed [] = Unit
IsClosed (c ∷ cs) = c ≢ 39

quoted-cons : (c : ℕ) (cs : List ℕ) → (c == 39) ≡ false → quoted (c ∷ cs) ≡ put_before c (quoted cs)
unfolding quoted
quoted-cons c [] h = rw (quoted, h) refl
quoted-cons c (d ∷ ds) h = rw (quoted, h) refl

quoted-closed : (rest : List ℕ) → IsClosed rest → quoted (39 ∷ rest) ≡ some ([], rest)
unfolding quoted
quoted-closed [] h = refl
quoted-closed (d ∷ ds) h = let e : (d == 39) ≡ false = ground arith in rw (quoted, e)

-- The value that was escaped is read back, and what follows its last quote is left.
pub quoted-escape :
    (value rest : List ℕ) → IsClosed rest → quoted (escape value ++ 39 ∷ rest) ≡ some (value, rest)
unfolding escape quoted
quoted-escape [] rest h = quoted-closed rest h
quoted-escape (c ∷ cs) rest h = elim (Bool-cases (c == 39)) [
  | inl e ↦
      let same : c ≡ 39 = (==_iff c 39).0 e in rw (escape, e, quoted, quoted-escape cs rest h, same)
  | inr e ↦ rw (escape, e, quoted-cons c (escape cs ++ 39 ∷ rest) e, quoted-escape cs rest h)
]

-- What the loop over the properties does behind a value.
abbrev pub go_on : ℕ → Properties → Option (List ℕ) → Option (Result Properties)
go_on fuel params none = none
go_on fuel params (some text) = read_properties fuel params text

go_on-elim :
    (fuel : ℕ) (params : Properties) (name value : List ℕ) (o : Option (List ℕ))
    → (elim o [
      | none ↦ none
      | some text ↦ read_properties fuel (insert (trim name) value params) text
    ])
      ≡ go_on fuel (insert (trim name) value params) o
go_on-elim fuel params name value none = refl
go_on-elim fuel params name value (some text) = refl

-- One property with a quoted value.
pub read_properties-quoted :
    (fuel : ℕ) (params : Properties) (name value rest : List ℕ)
    → Lacks 61 name
    → IsClosed rest
    → lookup (trim name) params ≡ none
    → read_properties (suc fuel) params (name ++ 61 ∷ 39 ∷ (escape value ++ 39 ∷ rest))
      ≡ go_on fuel (insert (trim name) value params) (skip_separator fuel rest)
unfolding read_properties read_value skip_blank
read_properties-quoted fuel params [] value rest h k l =
    let e = cut-append 61 [] (39 ∷ (escape value ++ 39 ∷ rest)) h in
    rw (read_properties, e, skip_blank, read_value, quoted-escape value rest k, l)
      (go_on-elim fuel params [] value (skip_separator fuel rest))
read_properties-quoted fuel params (n ∷ ns) value rest h k l =
    let e = cut-append 61 (n ∷ ns) (39 ∷ (escape value ++ 39 ∷ rest)) h in
    rw (read_properties, e, skip_blank, read_value, quoted-escape value rest k, l)
      (go_on-elim fuel params (n ∷ ns) value (skip_separator fuel rest))
