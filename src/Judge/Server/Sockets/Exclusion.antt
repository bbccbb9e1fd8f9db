-- ===== src/Judge/Server/Sockets/Exclusion.antt =====
-- The sockets that are held, over any sequence of calls.
use new_rojcpp.Prelude.{
  ℕ, ◌≡◌, ◌≢◌, sym, ap, ◌∙◌, List, [], ◌∷◌, ◌++◌, some, true, false, inl, inr, arith, Option-cases,
}
use new_rojcpp.Prelude.Cut.{Lacks}
use new_rojcpp.Prelude.Dict.{
  lookup, insert, erase, emplace, IsMap, lookup-insert, lookup-erase, insert-IsMap, erase-IsMap,
  nat_eq,
}
use new_rojcpp.Judge.Server.Sockets.{
  SocketMap, insert_fd, first_unused, get_fd, get_specified_fd, remove_fd, unuse,
}

-- The map, and the descriptors that `socketManagerRAII` objects hold, after any calls but removeAll.
pub data Reach : SocketMap → List ℕ → Type 0 where
  started : Reach [] []
  inserted : {m : SocketMap} {held : List ℕ} (fd : ℕ) → Reach m held → Reach (insert_fd fd m) held
  taken :
      {m : SocketMap} {held : List ℕ} (fd : ℕ)
      → (get_fd m).0 ≡ some fd
      → Reach m held
      → Reach (get_fd m).1 (fd ∷ held)
  taken_specified :
      {m : SocketMap} {held : List ℕ} (fd : ℕ)
      → (get_specified_fd fd m).0 ≡ true
      → Reach m held
      → Reach (get_specified_fd fd m).1 (fd ∷ held)
  removed : {m : SocketMap} {held : List ℕ} (fd : ℕ) → Reach m held → Reach (remove_fd fd m).1 held
  released :
      {m : SocketMap} (before after : List ℕ) (fd : ℕ)
      → Reach m (before ++ fd ∷ after)
      → Reach (unuse fd m) (before ++ after)

-- Each descriptor that is held is in use, and held once.
abbrev pub AreHeld : SocketMap → List ℕ → Type 0
AreHeld m [] = Unit
AreHeld m (fd ∷ held) = (lookup fd m ≡ some true) × Lacks fd held × AreHeld m held

pub record IsUnshared (m : SocketMap) (held : List ℕ) : Type 0 where
  pub map_kept : IsMap m
  pub are_held : AreHeld m held

-- What is in use stays so.
abbrev Keeps : SocketMap → SocketMap → Type 0
Keeps m m' = (fd : ℕ) → lookup fd m ≡ some true → lookup fd m' ≡ some true

AreHeld-Keeps : (m m' : SocketMap) (held : List ℕ) → Keeps m m' → AreHeld m held → AreHeld m' held
AreHeld-Keeps m m' [] k h = tt
AreHeld-Keeps m m' (fd ∷ held) k h = (k fd h.0, h.1, AreHeld-Keeps m m' held k h.2)

-- A descriptor that is not in use is not held.
unused-Lacks :
    (m : SocketMap) (fd : ℕ) (held : List ℕ)
    → lookup fd m ≡ some false
    → AreHeld m held
    → Lacks fd held
unused-Lacks m fd [] u h = tt
unused-Lacks m fd (g ∷ held) u h =
    (λ e. ground (arith, ap (λ x. lookup x m) e, u, h.0), unused-Lacks m fd held u h.2)

-- A descriptor that is not in use is marked.
take-IsUnshared :
    (m : SocketMap) (fd : ℕ) (held : List ℕ)
    → lookup fd m ≡ some false
    → IsUnshared m held
    → IsUnshared (insert fd true m) (fd ∷ held)
take-IsUnshared m fd held u x = record {
  map_kept = insert-IsMap fd true m x.map_kept;
  are_held = (
    lookup-insert fd fd true m ∙ ground arith,
    unused-Lacks m fd held u x.are_held,
    AreHeld-Keeps m (insert fd true m) held (λ g h. lookup-insert fd g true m ∙ ground (arith, h))
        x.are_held,
  );
}

first_unused-lookup :
    (m : SocketMap) (fd : ℕ) → IsMap m → first_unused m ≡ some fd → lookup fd m ≡ some false
unfolding first_unused lookup
first_unused-lookup [] fd i h = absurd (ground (arith, h))
first_unused-lookup ((g, true) ∷ m) fd i h =
    ground (arith, h, i.0, first_unused-lookup m fd i.1 h, ap (λ x. lookup x m))
first_unused-lookup ((g, false) ∷ m) fd i h = elim (Option-cases (first_unused m)) [
  | inl e ↦ ground (arith, rw e at h)
  | inr (r, e) ↦ ground (arith, rw e at h, first_unused-lookup m r i.1 e, i.0)
]

get_fd-IsUnshared :
    (m : SocketMap) (fd : ℕ) (held : List ℕ)
    → (get_fd m).0 ≡ some fd
    → IsUnshared m held
    → IsUnshared (get_fd m).1 (fd ∷ held)
unfolding get_fd
get_fd-IsUnshared m fd held q x = elim (Option-cases (first_unused m)) [
  | inl e ↦ absurd (ground (arith, rw (get_fd, e) at q))
  | inr (r, e) ↦
      let same : r ≡ fd = ground (arith, rw (get_fd, e) at q) in
      rw (get_fd, e, same)
        (take-IsUnshared m fd held (first_unused-lookup m fd x.map_kept (rw same at e)) x)
]

get_specified_fd-IsUnshared :
    (m : SocketMap) (fd : ℕ) (held : List ℕ)
    → (get_specified_fd fd m).0 ≡ true
    → IsUnshared m held
    → IsUnshared (get_specified_fd fd m).1 (fd ∷ held)
unfolding get_specified_fd
get_specified_fd-IsUnshared m fd held q x = elim (Option-cases (lookup fd m)) [
  | inl e ↦ absurd (ground (arith, rw (get_specified_fd, e) at q))
  | inr (true, e) ↦ absurd (ground (arith, rw (get_specified_fd, e) at q))
  | inr (false, e) ↦ rw (get_specified_fd, e) (take-IsUnshared m fd held e x)
]

insert_fd-IsUnshared :
    (m : SocketMap) (fd : ℕ) (held : List ℕ) → IsUnshared m held → IsUnshared (insert_fd fd m) held
unfolding insert_fd emplace lookup
insert_fd-IsUnshared m fd held x = elim (Option-cases (lookup fd m)) [
  | inl e ↦
      rw (insert_fd, emplace, e)
        (record {
          map_kept = (e, x.map_kept);
          are_held =
              AreHeld-Keeps m ((fd, false) ∷ m) held
                (λ g h. ground (arith, h, e, ap (λ y. lookup y m))) x.are_held;
        })
  | inr (used, e) ↦ rw (insert_fd, emplace, e) x
]

remove_fd-IsUnshared :
    (m : SocketMap) (fd : ℕ) (held : List ℕ)
    → IsUnshared m held
    → IsUnshared (remove_fd fd m).1 held
unfolding remove_fd
remove_fd-IsUnshared m fd held x = elim (Option-cases (lookup fd m)) [
  | inl e ↦ rw (remove_fd, e) x
  | inr (true, e) ↦ rw (remove_fd, e) x
  | inr (false, e) ↦
      rw (remove_fd, e)
        (record {
          map_kept = erase-IsMap fd m x.map_kept;
          are_held =
              AreHeld-Keeps m (erase fd m) held
                (λ g h. lookup-erase fd g m ∙ ground (arith, h, e, ap (λ y. lookup y m)))
                x.are_held;
        })
]

-- Those that are held besides one that is given back.
others-AreHeld :
    (m : SocketMap) (fd : ℕ) (held : List ℕ)
    → Lacks fd held
    → AreHeld m held
    → AreHeld (insert fd false m) held
others-AreHeld m fd [] l h = tt
others-AreHeld m fd (g ∷ held) l h =
    (lookup-insert fd g false m ∙ ground (arith, h.0, l.0), h.1, others-AreHeld m fd held l.1 h.2)

Lacks-append :
    (c : ℕ) (xs : List ℕ) (y : ℕ) (ys : List ℕ)
    → Lacks c (xs ++ y ∷ ys)
    → (c ≢ y) × Lacks c (xs ++ ys)
Lacks-append c [] y ys h = (λ e. h.0 (sym e), h.1)
Lacks-append c (x ∷ xs) y ys h = let (n, l) = Lacks-append c xs y ys h.1 in (n, (h.0, l))

release-AreHeld :
    (m : SocketMap) (before after : List ℕ) (fd : ℕ)
    → AreHeld m (before ++ fd ∷ after)
    → AreHeld (insert fd false m) (before ++ after)
release-AreHeld m [] after fd h = others-AreHeld m fd after h.1 h.2
release-AreHeld m (g ∷ before) after fd h =
    let (n, l) = Lacks-append g before fd after h.1 in
    (lookup-insert fd g false m ∙ ground (arith, h.0, n), l, release-AreHeld m before after fd h.2)

held-lookup :
    (m : SocketMap) (before after : List ℕ) (fd : ℕ)
    → AreHeld m (before ++ fd ∷ after)
    → lookup fd m ≡ some true
held-lookup m [] after fd h = h.0
held-lookup m (g ∷ before) after fd h = held-lookup m before after fd h.2

unuse-IsUnshared :
    (m : SocketMap) (before after : List ℕ) (fd : ℕ)
    → IsUnshared m (before ++ fd ∷ after)
    → IsUnshared (unuse fd m) (before ++ after)
unfolding unuse
unuse-IsUnshared m before after fd x =
    rw (unuse, held-lookup m before after fd x.are_held)
      (record {
        map_kept = insert-IsMap fd false m x.map_kept;
        are_held = release-AreHeld m before after fd x.are_held;
      })

-- Whatever calls but removeAll are made, in any order: no descriptor is held twice, and each that is
-- held is marked as in use in the map, where it is found once.
pub Reach-IsUnshared : {m : SocketMap} {held : List ℕ} → Reach m held → IsUnshared m held
Reach-IsUnshared started = record { map_kept = tt; are_held = tt }
Reach-IsUnshared (inserted {m} {held} fd r) = insert_fd-IsUnshared m fd held (Reach-IsUnshared r)
Reach-IsUnshared (taken {m} {held} fd q r) = get_fd-IsUnshared m fd held q (Reach-IsUnshared r)
Reach-IsUnshared (taken_specified {m} {held} fd q r) =
    get_specified_fd-IsUnshared m fd held q (Reach-IsUnshared r)
Reach-IsUnshared (removed {m} {held} fd r) = remove_fd-IsUnshared m fd held (Reach-IsUnshared r)
Reach-IsUnshared (released {m} before after fd r) =
    unuse-IsUnshared m before after fd (Reach-IsUnshared r)
