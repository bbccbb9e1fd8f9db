-- ===== src/Http/Strings.antt =====
-- The text helpers of include/tools/utils.hpp: trim, iequal and the comparison they need.
use new_rojcpp.Prelude.{
  ℕ, suc, ◌+◌, ◌-◌, ◌≡◌, List, [], ◌∷◌, Bool, true, false, ◌&&◌, arith, length, take, drop,
  take_all, ◌==◌, leb, if◌then◌else◌,
}
use mathlib.Core.List.{reverse}

-- How many blanks a text begins with: `min(v.find_first_not_of(" "), v.size())`.
unfoldable pub leading : List ℕ → ℕ
leading [] = 0
leading (c ∷ cs) = let n = leading cs in if c == 32 then suc n else 0

unfoldable pub trim_left : List ℕ → List ℕ
trim_left v = drop (leading v) v

-- `v.size() - v.find_last_not_of(" ") - 1` blanks go from the end.
unfoldable pub trim_right : List ℕ → List ℕ
trim_right v = take (length v - leading (reverse v)) v

unfoldable pub trim : List ℕ → List ℕ
trim v = trim_right (trim_left v)

-- `std::tolower` in the "C" locale
abbrev to_lower : ℕ → ℕ
to_lower c = if leb 65 c && leb c 90 then c + 32 else c

unfoldable pub iequal : List ℕ → List ℕ → Bool
iequal [] [] = true
iequal (c ∷ s) (d ∷ t) = to_lower c == to_lower d && iequal s t
iequal _ _ = false

-- No blank at either end.
pub record IsTrimmed (v : List ℕ) : Type 0 where
  pub left : leading v ≡ 0
  pub right : leading (reverse v) ≡ 0

pub trim_of_IsTrimmed : (v : List ℕ) → IsTrimmed v → trim v ≡ v
unfolding trim trim_left trim_right
trim_of_IsTrimmed v h = rw (h.left, h.right) (take_all (length v - 0) v (omega arith))
