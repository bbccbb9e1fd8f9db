-- ===== src/Json/Object/Loading.antt =====
-- Which object `loads` gives.
use new_rojcpp.Prelude.{
  ℕ, ◌≡◌, refl, ap, ◌∙◌, List, [], ◌∷◌, Option, none, some, true, false, arith, bytes_beq,
  bytes_beq_iff, if◌then◌else◌, Bool-cases, inl, inr,
}
use new_rojcpp.Prelude.Dict.{lookup, insert, lookup-insert, bytes_eq, IsMap}
use new_rojcpp.Prelude.Text.{codes}
use new_rojcpp.Json.Parse.{Config}
use new_rojcpp.Json.Object.{FieldType, Field, Fields, Object, string_to_value, config_to_object}

-- The walk through a hash map comes to every entry, and to each key once.
pub record IsWalk (walk : Config → Config) : Type 0 where
  pub same : (k : List ℕ) (m : Config) → IsMap m → lookup k (walk m) ≡ lookup k m
  pub once : (m : Config) → IsMap m → IsMap (walk m)

-- The class has a field of that name, and the value is read as `v`.
pub record IsRead (fields : Fields) (name value : List ℕ) (v : Field) : Type 0 where
  pub other : bytes_beq name (codes "class_name") ≡ false
  pub type : FieldType
  pub there : lookup name fields ≡ some type
  pub reads : string_to_value type value ≡ some v

-- Every entry is a field, read as `decode` says.
abbrev pub AreRead : Fields → (List ℕ → Field) → Config → Type 0
AreRead fields decode m =
    (name value : List ℕ) → lookup name m ≡ some value → IsRead fields name value (decode name)

abbrev pub or_old : Field → Option (List ℕ) → Option Field → Option Field
or_old new none old = old
or_old new (some _) old = some new

-- The fields that the object has then.
abbrev pub field_after : (List ℕ → Field) → Config → Object → List ℕ → Option Field
field_after decode m o name = or_old (decode name) (lookup name m) (lookup name o)

-- What the head of a config and its rest say.
module _ {ℓ} {V : Type ℓ} (k name : List ℕ) (v : V) (m : List (List ℕ × V)) where
  pub lookup_self : lookup k ((k, v) ∷ m) ≡ some v
  unfolding lookup
  lookup_self = let e : bytes_beq k k ≡ true = (bytes_beq_iff k k).1 refl in rw (lookup, e) refl

  pub lookup-cons : lookup name ((k, v) ∷ m) ≡ (if bytes_beq k name then some v else lookup name m)
  unfolding lookup
  lookup-cons = refl

  pub lookup-other :
      (w : V) → lookup k m ≡ none → lookup name m ≡ some w → lookup name ((k, v) ∷ m) ≡ some w
  unfolding lookup
  lookup-other w u e = ground (arith, bytes_beq_iff k name, u, e)

module _ (fields : Fields) (decode : List ℕ → Field) where
  field_after-cons :
      (k v name : List ℕ) (m : Config) (o : Object)
      → lookup k m ≡ none
      → field_after decode m (insert k (decode k) o) name ≡ field_after decode ((k, v) ∷ m) o name
  field_after-cons k v name m o u = elim (Bool-cases (bytes_beq k name)) [
    | inl e ↦
        let same : k ≡ name = (bytes_beq_iff k name).0 e in
        let gone : lookup name m ≡ none = rw (← same) u in
        rw (gone, lookup-cons k name v m, lookup-insert k name (decode k) o, e)
          (ap (λ n. some (decode n)) same)
    | inr e ↦ rw (lookup-cons k name v m, lookup-insert k name (decode k) o, e) refl
  ]

  pub config_to_object-field_after :
      (m : Config) (o : Object)
      → IsMap m
      → AreRead fields decode m
      → (o' : Object) × (config_to_object fields m o ≡ some o')
        × ((name : List ℕ) → lookup name o' ≡ field_after decode m o name)
  unfolding config_to_object lookup
  config_to_object-field_after [] o u h = (o, refl, λ name. refl)
  config_to_object-field_after ((k, v) ∷ m) o u h =
      let r = h k v (lookup_self k k v m) in
      let (o', e, f) =
        config_to_object-field_after m (insert k (decode k) o) u.1
          (λ name value p. h name value (lookup-other k name v m value u.0 p)) in
      (
        o',
        rw (config_to_object, r.other, r.there, r.reads) e,
        λ name. f name ∙ field_after-cons k v name m o u.0,
      )
