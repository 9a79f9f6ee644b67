-- ===== src/Base/Decimal.antt =====
-- The `%d` of printf for numbers that are not negative.
use Prim.Native.Nat.{ℕ, zero, suc, ◌+◌, ◌-◌, ◌*◌, ◌/◌, ◌%◌, ◌<◌}
use cplr.Base.Tests.{ltb, if◌then◌else◌, Bool-cases}
use cplr.Base.Text.{Text}
use mathlib.Core.Path.{◌≡◌, refl, sym, ap, ◌∙◌}
use mathlib.Core.Logic.{inl, inr}
use mathlib.Core.List.{[], ◌∷◌}
use native.Mathlib.Omega.{arith}

-- The digits of `n` in front of `rest`; `n + 1` rounds are enough, since each divides by ten.
digits : ℕ → ℕ → Text → Text
digits zero n rest = rest
digits (suc k) n rest =
    let more = digits k (n / 10) ((48 + n % 10) ∷ rest) in
    if ltb n 10 then (48 + n) ∷ rest else more

unfoldable pub decimal : ℕ → Text
unfolding digits
decimal n = digits (n + 1) n []

-- The number that digits stand for, after those that stand for `v`.
read_digits : ℕ → Text → ℕ
read_digits v [] = v
read_digits v (d ∷ ds) = read_digits (v * 10 + (d - 48)) ds

read_digits-digits :
    (k n : ℕ) (rest : Text) → n < k → read_digits 0 (digits k n rest) ≡ read_digits n rest
unfolding digits read_digits
read_digits-digits zero n rest h = absurd (omega arith)
read_digits-digits (suc k) n rest h = elim (Bool-cases (ltb n 10)) [
  | inl small ↦ rw small (ap (λ v. read_digits v rest) (omega arith))
  | inr big ↦ rw big (
      read_digits-digits k (n / 10) ((48 + n % 10) ∷ rest) (ground arith)
      ∙ ap (λ v. read_digits v rest) (omega arith))
]

read_digits-decimal : (n : ℕ) → read_digits 0 (decimal n) ≡ n
unfolding decimal
read_digits-decimal n = read_digits-digits (n + 1) n [] (omega arith) ∙ unfold read_digits in refl

-- Different numbers print differently.
pub decimal-injective : (m n : ℕ) → decimal m ≡ decimal n → m ≡ n
decimal-injective m n e = sym (read_digits-decimal m) ∙ ap (read_digits 0) e ∙ read_digits-decimal n

decimal_example : decimal 2048 ≡ 50 ∷ 48 ∷ 52 ∷ 56 ∷ []
unfolding decimal
decimal_example = refl
