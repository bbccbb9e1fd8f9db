-- ===== src/Judge/Judger/CommandLine/Kinds.antt =====
-- The kinds of options that the judger knows: numbers of 32 and 64 bits, and texts.
use new_rojcpp.Prelude.Decimal.{decimal-first}
use new_rojcpp.Prelude.{
  ℕ, ◌+◌, ◌^◌, ◌<◌, ◌≡◌, refl, sym, ap, ◌∙◌, List, [], ◌∷◌, ◌++◌, some, Bool, true, false, not,
  ◌&&◌, ltb, ◌==◌, map, arith, append-nil,
}
use new_rojcpp.Prelude.Cut.{Lacks}
use new_rojcpp.Prelude.Decimal.{
  decimal, digits, is_digit, digits_value, digits_value-map, digits-AreBelow, digits-value,
  AreBelow,
}
use new_rojcpp.Prelude.Text.{codes, AllAre, append-AllAre}
use new_rojcpp.Judge.Judger.CommandLine.{
  Value, Config, arguments, find, read_unsigned, store, is_empty, is_space, up_to,
}
use new_rojcpp.Judge.Judger.CommandLine.Shell.{bare, quoting, is_bare, is_inside, IsPlain}
use Prim.Native.String.{String}
use mathlib.Core.List.{reverse}
use new_rojcpp.Judge.Judger.CommandLine.Options.{Setting, IsKnown}

-- The characters of a flag.
abbrev pub is_flag_char : ℕ → Bool
is_flag_char c = is_bare c && not (c == 61)

is_flag_char-Lacks : (name : List ℕ) → AllAre is_flag_char name → Lacks 61 name
is_flag_char-Lacks [] h = tt
is_flag_char-Lacks (c ∷ cs) h = (ground (arith, h.0), is_flag_char-Lacks cs h.1)

is_flag_char-bare : (name : List ℕ) → AllAre is_flag_char name → AllAre is_bare name
is_flag_char-bare [] h = tt
is_flag_char-bare (c ∷ cs) h = (ground (arith, h.0), is_flag_char-bare cs h.1)

bare-IsPlain :
    (cs ds : List ℕ) → AllAre is_bare cs → AllAre is_bare ds → IsPlain (bare (cs ++ 61 ∷ ds))
bare-IsPlain [] ds h k = (refl, k)
bare-IsPlain (c ∷ cs) ds h k = append-AllAre is_bare (c ∷ cs) (61 ∷ ds) h (refl, k)

-- Numbers.
decimal-is_bare : (ds : List ℕ) → AreBelow 10 ds → AllAre is_bare (map (λ d. 48 + d) ds)
decimal-is_bare [] h = tt
decimal-is_bare (d ∷ ds) h = (ground (arith, h.0), decimal-is_bare ds h.1)

decimal_value : (n : ℕ) → digits_value 0 (decimal n) ≡ n
decimal_value n =
    ap (digits_value 0) (sym (append-nil (decimal n)))
    ∙ digits_value-map 0 (reverse (digits n)) [] (digits-AreBelow n) tt
    ∙ digits-value n

read_unsigned-digit :
    (w c : ℕ) (cs : List ℕ)
    → is_digit c ≡ true
    → read_unsigned w (c ∷ cs) ≡ some (up_to w (digits_value 0 (c ∷ cs)))
unfolding read_unsigned
read_unsigned-digit w c cs h =
    let solid : is_space c ≡ false = ground (arith, h) in
    let no_minus : (c == b'-') ≡ false = ground (arith, h) in
    let no_plus : (c == b'+') ≡ false = ground (arith, h) in
    rw (read_unsigned, solid, no_minus, no_plus) refl

read_unsigned-decimal : (w n : ℕ) → n < 2 ^ w → read_unsigned w (decimal n) ≡ some n
read_unsigned-decimal w n h =
    let (c, cs, e, digit) = decimal-first n in
    let fits : ltb n (2 ^ w) ≡ true = ground (arith, h) in
    ap (read_unsigned w) e
    ∙ read_unsigned-digit w c cs digit
    ∙ ap (λ t. some (up_to w (digits_value 0 t))) (sym e)
    ∙ ap (λ k. some (up_to w k)) (decimal_value n)
    ∙ rw fits refl

-- What a quoted value must be.
abbrev pub IsText : List ℕ → Type 0
IsText q = (is_empty q ≡ false) × AllAre is_inside q

abbrev pub text_setting : String → (List ℕ → Config → Config) → List ℕ → Setting
text_setting name set q = record { name = codes name; value = q; quotes = true; change = set q }

abbrev pub number_setting : String → (ℕ → Config → Config) → ℕ → Setting
number_setting name set n = record {
  name = codes name;
  value = decimal n;
  quotes = false;
  change = set n;
}

module _ (name : String) (plain : AllAre is_flag_char (codes name)) where
  quoting-IsPlain : (q : List ℕ) → AllAre is_inside q → IsPlain (quoting (codes name ++ 61 ∷ []) q)
  quoting-IsPlain q h = (
    append-AllAre is_bare (codes name) (61 ∷ []) (is_flag_char-bare (codes name) plain) (refl, tt),
    h,
  )

  pub text_setting-IsKnown :
      (set : List ℕ → Config → Config) (q : List ℕ)
      → find (codes name) arguments ≡ some (Value.text set)
      → IsText q
      → IsKnown (text_setting name set q)
  unfolding store
  text_setting-IsKnown set q e h = record {
    lacking = is_flag_char-Lacks (codes name) plain;
    value_of = Value.text set;
    listed = e;
    stores = λ s. rw (store, h.0) refl;
    plain = quoting-IsPlain q h.1;
  }

  pub texts_setting-IsKnown :
      (set : List ℕ → Config → Config) (q : List ℕ)
      → find (codes name) arguments ≡ some (Value.texts set)
      → IsText q
      → IsKnown (text_setting name set q)
  unfolding store
  texts_setting-IsKnown set q e h = record {
    lacking = is_flag_char-Lacks (codes name) plain;
    value_of = Value.texts set;
    listed = e;
    stores = λ s. rw (store, h.0) refl;
    plain = quoting-IsPlain q h.1;
  }

  number_setting-IsPlain : (n : ℕ) → IsPlain (bare (codes name ++ 61 ∷ decimal n))
  number_setting-IsPlain n =
      bare-IsPlain (codes name) (decimal n) (is_flag_char-bare (codes name) plain)
        (decimal-is_bare (reverse (digits n)) (digits-AreBelow n))

  decimal-filled : (n : ℕ) → is_empty (decimal n) ≡ false
  decimal-filled n = let (c, cs, e, digit) = decimal-first n in ap is_empty e

  pub number_setting-IsKnown :
      (set : ℕ → Config → Config) (n : ℕ)
      → find (codes name) arguments ≡ some (Value.uint32 set)
      → n < 2 ^ 32
      → IsKnown (number_setting name set n)
  unfolding store
  number_setting-IsKnown set n e h = record {
    lacking = is_flag_char-Lacks (codes name) plain;
    value_of = Value.uint32 set;
    listed = e;
    stores = λ s. rw (store, decimal-filled n, read_unsigned-decimal 32 n h) refl;
    plain = number_setting-IsPlain n;
  }

  pub long_setting-IsKnown :
      (set : ℕ → Config → Config) (n : ℕ)
      → find (codes name) arguments ≡ some (Value.uint64 set)
      → n < 2 ^ 64
      → IsKnown (number_setting name set n)
  unfolding store
  long_setting-IsKnown set n e h = record {
    lacking = is_flag_char-Lacks (codes name) plain;
    value_of = Value.uint64 set;
    listed = e;
    stores = λ s. rw (store, decimal-filled n, read_unsigned-decimal 64 n h) refl;
    plain = number_setting-IsPlain n;
  }

  pub bare_setting-IsKnown :
      (set : List ℕ → Config → Config) (q : List ℕ)
      → find (codes name) arguments ≡ some (Value.text set)
      → is_empty q ≡ false
      → AllAre is_bare q
      → IsKnown (record (text_setting name set q) { quotes = false })
  unfolding store
  bare_setting-IsKnown set q e h p = record {
    lacking = is_flag_char-Lacks (codes name) plain;
    value_of = Value.text set;
    listed = e;
    stores = λ s. rw (store, h) refl;
    plain = bare-IsPlain (codes name) q (is_flag_char-bare (codes name) plain) p;
  }
