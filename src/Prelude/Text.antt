-- ===== src/Prelude/Text.antt =====
-- Text literals as lists of bytes, and texts whose characters all pass a test.
use Prim.Native.Char.{code}
use Prim.Native.String.{String}
use new_rojcpp.Prelude.{ℕ, ◌≡◌, List, [], ◌∷◌, ◌++◌, Bool, true, ◌&&◌, arith}

-- The code points of a text: its bytes, if it is ASCII.
abbrev pub codes : String → List ℕ
codes String.[] = []
codes (String.◌∷◌ c s) = code c ∷ codes s

-- Every character passes the test.
abbrev pub AllAre : (ℕ → Bool) → List ℕ → Type 0
AllAre is [] = Unit
AllAre is (c ∷ cs) = (is c ≡ true) × AllAre is cs

abbrev pub all_are : (ℕ → Bool) → List ℕ → Bool
all_are is [] = true
all_are is (c ∷ cs) = is c && all_are is cs

pub all_are-AllAre : (is : ℕ → Bool) (cs : List ℕ) → all_are is cs ≡ true → AllAre is cs
all_are-AllAre is [] h = tt
all_are-AllAre is (c ∷ cs) h = (ground (arith, h), all_are-AllAre is cs (ground (arith, h)))

pub append-AllAre :
    (is : ℕ → Bool) (cs ds : List ℕ) → AllAre is cs → AllAre is ds → AllAre is (cs ++ ds)
append-AllAre is [] ds h k = k
append-AllAre is (c ∷ cs) ds h k = (h.0, append-AllAre is cs ds h.1 k)
