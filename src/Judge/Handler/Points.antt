-- ===== src/Judge/Handler/Points.antt =====
-- The message "now,total" of one test point.
use new_rojcpp.Prelude.{
  ℕ, ◌+◌, ◌-◌, ◌*◌, ◌≡◌, refl, ◌∙◌, List, [], ◌∷◌, ◌++◌, map, true, false, arith,
}
use new_rojcpp.Prelude.Decimal.{
  digits, value_from, digits-value, AreBelow, digits-AreBelow, decimal, is_digit, IsEnd,
}
use new_rojcpp.Judge.Handler.{State, read_points}
use mathlib.Core.List.{reverse}

read_now :
    (now total : ℕ) (ds : List ℕ) (c : ℕ) (rest : List ℕ)
    → AreBelow 10 ds
    → is_digit c ≡ false
    → read_points State.in_now now total (map (λ d. 48 + d) ds ++ c ∷ rest)
      ≡ read_points State.in_total (value_from now ds) total rest
unfolding read_points
read_now now total [] c rest h e = rw (e, read_points) refl
read_now now total (d ∷ ds) c rest h e =
    let digit : is_digit (48 + d) ≡ true = ground arith in
    let same : 48 + d - 48 ≡ d = omega arith in
    rw (read_points, digit, same) (read_now (now * 10 + d) total ds c rest h.1 e)

read_total :
    (now total : ℕ) (ds rest : List ℕ)
    → AreBelow 10 ds
    → IsEnd rest
    → read_points State.in_total now total (map (λ d. 48 + d) ds ++ rest)
      ≡ (now, value_from total ds)
unfolding read_points
read_total now total [] [] h e = refl
read_total now total [] (c ∷ rest) h e = rw (e, read_points) refl
read_total now total (d ∷ ds) rest h e =
    let digit : is_digit (48 + d) ≡ true = ground arith in
    let same : 48 + d - 48 ≡ d = omega arith in
    rw (read_points, digit, same) (read_total now (total * 10 + d) ds rest h.1 e)

-- The handler reads the two numbers of a message that a point's number, any character but a digit,
-- and the number of points make up, whatever follows that is no digit.
pub read_points-decimal :
    (now total c : ℕ) (rest : List ℕ)
    → is_digit c ≡ false
    → IsEnd rest
    → read_points State.in_now 0 0 (decimal now ++ c ∷ (decimal total ++ rest)) ≡ (now, total)
read_points-decimal now total c rest e h =
    read_now 0 0 (reverse (digits now)) c (decimal total ++ rest) (digits-AreBelow now) e
    ∙ read_total _ 0 (reverse (digits total)) rest (digits-AreBelow total) h
    ∙ rw (digits-value now, digits-value total) refl
