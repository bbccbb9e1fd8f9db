-- ===== src/Judge/Judger/CommandLine/Options.antt =====
-- What the judger makes of a list of options that it knows.
use new_rojcpp.Prelude.{
  ℕ, ◌≡◌, refl, ◌∙◌, List, [], ◌∷◌, ◌++◌, some, Bool, false, if◌then◌else◌, map, append_assoc,
  Bool-cases, inl, inr,
}
use new_rojcpp.Prelude.Cut.{cut-append, Lacks}
use new_rojcpp.Judge.Judger.CommandLine.{
  Value, Config, arguments, find, flag_and_value, store, parse_words,
}
use new_rojcpp.Judge.Judger.CommandLine.Shell.{Word, bare, quoting, meant, IsPlain, ArePlain}

-- An option: its flag, its value, whether the value is quoted, and what it changes.
pub record Setting : Type 0 where
  pub name : List ℕ
  pub value : List ℕ
  pub quotes : Bool
  pub change : Config → Config

abbrev pub word_of : Setting → Word
word_of o = if o.quotes then quoting (o.name ++ 61 ∷ []) o.value else bare (o.name ++ 61 ∷ o.value)

abbrev pub option_text : Setting → List ℕ
option_text o = o.name ++ 61 ∷ o.value

word_of-meant : (o : Setting) → meant (word_of o) ≡ option_text o
word_of-meant o = elim (Bool-cases o.quotes) [
  | inl e ↦ rw e (append_assoc o.name (61 ∷ []) o.value)
  | inr e ↦ rw e refl
]

pub words_of-meant : (os : List Setting) → map meant (map word_of os) ≡ map option_text os
words_of-meant [] = refl
words_of-meant (o ∷ os) = rw (word_of-meant o, words_of-meant os) refl

abbrev pub changed : List Setting → Config → Config
changed [] s = s
changed (o ∷ os) s = changed os (o.change s)

-- The judger has the option, and its value changes the variables as the option says.
pub record IsKnown (o : Setting) : Type 0 where
  pub lacking : Lacks 61 o.name
  pub value_of : Value Config
  pub listed : find o.name arguments ≡ some value_of
  pub stores : (s : Config) → store value_of o.value false s ≡ some (false, o.change s)
  pub plain : IsPlain (word_of o)

abbrev pub AreKnown : List Setting → Type 0
AreKnown [] = Unit
AreKnown (o ∷ os) = IsKnown o × AreKnown os

flag_and_value-option :
    (name value : List ℕ) (words : List (List ℕ))
    → Lacks 61 name
    → flag_and_value (name ++ 61 ∷ value) words ≡ (name, value, false)
unfolding flag_and_value
flag_and_value-option name value words h = rw (flag_and_value, cut-append 61 name value h) refl

parse_words-option :
    (o : Setting) (words : List (List ℕ)) (s : Config)
    → IsKnown o
    → parse_words arguments false (option_text o ∷ words) s
      ≡ parse_words arguments false words (o.change s)
unfolding parse_words
parse_words-option o words s h =
    rw
      (
        parse_words,
        flag_and_value-option o.name o.value words h.lacking,
        h.listed,
        flag_and_value-option o.name o.value words h.lacking,
        h.stores s,
      )
      refl

pub parse_words-changed :
    (os : List Setting) (s : Config)
    → AreKnown os
    → parse_words arguments false (map option_text os) s ≡ some (changed os s)
unfolding parse_words
parse_words-changed [] s h = refl
parse_words-changed (o ∷ os) s h =
    parse_words-option o (map option_text os) s h.0 ∙ parse_words-changed os (o.change s) h.1

pub AreKnown-ArePlain : (os : List Setting) → AreKnown os → ArePlain (map word_of os)
AreKnown-ArePlain [] h = tt
AreKnown-ArePlain (o ∷ os) h = (h.0.plain, AreKnown-ArePlain os h.1)
