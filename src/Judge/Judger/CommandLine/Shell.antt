-- ===== src/Judge/Judger/CommandLine/Shell.antt =====
-- What the exec of libs/judgercpp/judge_server/src/utils.hpp leaves to the shell: the words of a
-- command line.
use new_rojcpp.Prelude.{ℕ, ◌≡◌, List, [], ◌∷◌, ◌++◌, Bool, not, ◌&&◌, ◌||◌, leb, ◌==◌, map}
use new_rojcpp.Prelude.Text.{AllAre}

-- A word, or one with a part between double quotes at its end.
pub data Word : Type 0 where
  bare : List ℕ → Word
  quoting : List ℕ → List ℕ → Word

abbrev pub printed : Word → List ℕ
printed (bare b) = b
printed (quoting b q) = b ++ 34 ∷ (q ++ 34 ∷ [])

abbrev pub meant : Word → List ℕ
meant (bare b) = b
meant (quoting b q) = b ++ q

-- The words, each with a blank behind it.
abbrev pub line : List Word → List ℕ
line [] = []
line (w ∷ ws) = printed w ++ 32 ∷ line ws

-- Letters, digits, and - . / = _
abbrev pub is_bare : ℕ → Bool
is_bare c =
    leb 45 c && leb c 57
    || (leb 65 c && leb c 90 || (leb 97 c && leb c 122 || (c == 61 || c == 95)))

-- Characters that mean themselves between double quotes: not " $ \ ` or a zero.
abbrev pub is_inside : ℕ → Bool
is_inside c = not (c == 34 || (c == 36 || (c == 92 || (c == 96 || c == 0))))

abbrev pub IsPlain : Word → Type 0
IsPlain (bare []) = ⊥
IsPlain (bare (c ∷ cs)) = AllAre is_bare (c ∷ cs)
IsPlain (quoting b q) = AllAre is_bare b × AllAre is_inside q

abbrev pub ArePlain : List Word → Type 0
ArePlain [] = Unit
ArePlain (w ∷ ws) = IsPlain w × ArePlain ws

-- A shell gives the words of a command whose program is an absolute path.
abbrev pub IsShell : (List ℕ → List (List ℕ)) → Type 0
IsShell words =
    (path : List ℕ) (ws : List Word)
    → AllAre is_bare path
    → ArePlain ws
    → words (47 ∷ (path ++ 32 ∷ line ws)) ≡ (47 ∷ path) ∷ map meant ws
