-- ===== src/Db/ConnectionString/RoundTrip.antt =====
-- Connection strings that are put together from a driver and properties.
use new_rojcpp.Prelude.{
  ℕ, zero, suc, ◌+◌, ◌≡◌, ◌<◌, sym, ap, ◌∙◌, List, [], ◌∷◌, ◌++◌, none, some, arith, length,
  length-append, append-nil, append_assoc,
}
use new_rojcpp.Prelude.Cut.{Lacks, cut-append}
use new_rojcpp.Prelude.Dict.{IsMap, lookup, insert, insert_new, lookup_of_IsMap, bytes_eq}
use new_rojcpp.Db.ConnectionString.{
  Result, Properties, trim, skip_separator, read_properties, parse_connection_string,
}
use new_rojcpp.Db.ConnectionString.Quoting.{escape, read_properties-quoted}

-- A name that the parser can give back.
pub record IsName (name : List ℕ) : Type 0 where
  pub plain : Lacks 61 name
  pub trimmed : trim name ≡ name

abbrev pub AreNamed : Properties → Type 0
AreNamed [] = Unit
AreNamed ((name, value) ∷ m) = IsName name × AreNamed m

-- `name='value';` for each property
abbrev pub print_properties : Properties → List ℕ
print_properties [] = []
print_properties ((name, value) ∷ m) =
    name ++ 61 ∷ 39 ∷ (escape value ++ 39 ∷ 59 ∷ print_properties m)

abbrev pub print_connection : List ℕ → Properties → List ℕ
print_connection driver m = driver ++ 58 ∷ print_properties m

shorter :
    (name value rest : List ℕ)
    → length rest + 3 < length (name ++ 61 ∷ 39 ∷ (escape value ++ 39 ∷ 59 ∷ rest))
shorter name value rest = omega (
  arith,
  length-append name (61 ∷ 39 ∷ (escape value ++ 39 ∷ 59 ∷ rest)),
  length-append (escape value) (39 ∷ 59 ∷ rest),
)

read_properties-print :
    (fuel : ℕ) (acc m : Properties)
    → AreNamed m
    → IsMap (acc ++ m)
    → length (print_properties m) < fuel
    → read_properties fuel acc (print_properties m) ≡ some (Result.ok (acc ++ m))
unfolding read_properties skip_separator
read_properties-print zero acc m h k f = absurd (omega arith)
read_properties-print (suc fuel) acc [] h k f = ap (λ l. some (Result.ok l)) (sym (append-nil acc))
read_properties-print (suc zero) acc ((name, value) ∷ m) h k f =
    absurd (omega (arith, shorter name value (print_properties m)))
read_properties-print (suc (suc fuel)) acc ((name, value) ∷ m) h k f =
    let l = lookup_of_IsMap name value acc m k in
    let l' : lookup (trim name) acc ≡ none = rw h.0.trimmed l in
    let last : insert (trim name) value acc ≡ acc ++ (name, value) ∷ [] =
      rw h.0.trimmed (insert_new name value acc l) in
    let joined = append_assoc acc ((name, value) ∷ []) m in
    read_properties-quoted (suc fuel) acc name value (59 ∷ print_properties m) h.0.plain
      (ground arith) l'
    ∙ rw (last, skip_separator)
        (read_properties-print (suc fuel) (acc ++ (name, value) ∷ []) m h.1 (rw joined k)
            (omega (arith, shorter name value (print_properties m)))
          ∙ ap (λ a. some (Result.ok a)) joined)

-- Reading a connection string that is put together from a driver without ':' and properties whose
-- names have no '=', are trimmed and distinct, with each value in quotes, gives the driver and the
-- properties, whatever bytes the values are made of, on any fuel above the length of the text.
pub parse_connection_string-print :
    (fuel : ℕ) (driver : List ℕ) (m : Properties)
    → Lacks 58 driver
    → AreNamed m
    → IsMap m
    → length (print_connection driver m) < fuel
    → parse_connection_string fuel (print_connection driver m)
      ≡ some (
          Result.ok record {
            connection_string = print_connection driver m;
            driver = driver;
            properties = m;
          })
unfolding parse_connection_string
parse_connection_string-print fuel driver m hd h k f = rw (
  parse_connection_string,
  cut-append 58 driver (print_properties m) hd,
  read_properties-print fuel [] m h k
      (omega (arith, length-append driver (58 ∷ print_properties m))),
)
