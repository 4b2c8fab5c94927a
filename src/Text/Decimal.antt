-- ===== src/Text/Decimal.antt =====
-- fmt's %d of a number that is not negative.
use underground_node_network.Base.{
  ℕ, zero, suc, ◌+◌, ◌-◌, ◌*◌, ◌/◌, ◌%◌, ◌<◌, ◌≡◌, [], ◌∷◌, arith, ltb, if◌then◌else◌, sym, ◌∙◌, ap,
  Bool-cases, inl, inr,
}
use underground_node_network.Text.{Text}

-- The digits of `n` in front of `out`; `n` has at most `fuel` digits.
digits : ℕ → ℕ → Text → Text
digits zero n out = out
digits (suc fuel) n out =
    let more = digits fuel (n / 10) ((b'0' + n % 10) ∷ out) in
    if ltb n 10 then (b'0' + n) ∷ out else more

unfoldable pub decimal : ℕ → Text
unfolding digits
decimal n = digits (suc n) n []

-- The number that digits spell behind `acc`.
abbrev value_from : ℕ → Text → ℕ
value_from acc [] = acc
value_from acc (c ∷ s) = value_from (acc * 10 + (c - b'0')) s

value_from-digits :
    (fuel n : ℕ) (out : Text) → n < fuel → value_from 0 (digits fuel n out) ≡ value_from n out
unfolding digits
value_from-digits zero n out h = absurd (omega arith)
value_from-digits (suc fuel) n out h = elim (Bool-cases (ltb n 10)) [
  | inl small ↦ rw small (ap (λ k. value_from k out) (omega arith))
  | inr large ↦ rw large (
      value_from-digits fuel (n / 10) ((b'0' + n % 10) ∷ out) (ground arith)
      ∙ ap (λ k. value_from k out) (omega arith))
]

-- Different numbers have different prints.
pub decimal-injective : (m n : ℕ) → decimal m ≡ decimal n → m ≡ n
unfolding decimal
decimal-injective m n e =
    sym (value_from-digits (suc m) m [] (omega arith))
    ∙ ap (value_from 0) e
    ∙ value_from-digits (suc n) n [] (omega arith)
