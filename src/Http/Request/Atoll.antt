-- ===== src/Http/Request/Atoll.antt =====
-- Reading a length back: `atoll` on decimal digits.
use new_rojcpp.Prelude.{ℕ, ◌+◌, ◌^◌, ◌<◌, ◌≡◌, sym, ap, ◌∙◌, List, ◌∷◌, ◌++◌, map, some, arith}
use new_rojcpp.Prelude.Decimal.{
  decimal, IsEnd, digits_value, digits_value-map, value_from, digits-value, AreBelow,
  digits-AreBelow, reverse-digits,
}
use new_rojcpp.Http.Request.{signed, positive, atoll}
use mathlib.Core.Path.{subst}

atoll_number :
    (n d : ℕ) (ds rest : List ℕ)
    → n < 2 ^ 63
    → AreBelow 10 (d ∷ ds)
    → IsEnd rest
    → value_from 0 (d ∷ ds) ≡ n
    → atoll (map (λ k. 48 + k) (d ∷ ds) ++ rest) ≡ some n
unfolding atoll signed positive
atoll_number n d ds rest h b e v =
    let value : digits_value 0 (map (λ k. 48 + k) (d ∷ ds) ++ rest) ≡ n =
      digits_value-map 0 (d ∷ ds) rest b e ∙ v in
    ground (arith, value)

-- `atoll` gives back a number below 2 ^ 63 that was printed in decimal, whatever follows that is no
-- digit.
pub atoll-decimal :
    (n : ℕ) (rest : List ℕ) → n < 2 ^ 63 → IsEnd rest → atoll (decimal n ++ rest) ≡ some n
atoll-decimal n rest h e =
    let (d, ds, first) = reverse-digits n in
    ap (λ l. atoll (map (λ k. 48 + k) l ++ rest)) first
    ∙ atoll_number n d ds rest h (subst (AreBelow 10) first (digits-AreBelow n)) e
        (ap (value_from 0) (sym first) ∙ digits-value n)
