-- ===== src/Base/Decimal.antt =====
-- Decimal numerals, as `format!` prints them.
use Prim.Native.Nat.{ℕ, zero, suc, ◌+◌, ◌*◌, ◌-◌, ◌/◌, ◌%◌, ◌<◌}
use mathlib.Core.List.{[], ◌∷◌}
use mathlib.Core.Path.{◌≡◌, refl, sym, ap, ◌∙◌}
use mathlib.Core.Logic.{inl, inr}
use native.Mathlib.Omega.{arith}
use coactor.Base.Tests.{Bytes, bytes, ◌==◌, if◌then◌else◌, Bool-cases}

-- The digits of `n` in front of `after`. A round divides by ten, so `n + 1` rounds are enough.
digits_before : ℕ → ℕ → Bytes → Bytes
digits_before zero n after = after
digits_before (suc fuel) n after =
    let digit = b'0' + n % 10 in
    let rest = digits_before fuel (n / 10) (digit ∷ after) in
    if n / 10 == 0 then digit ∷ after else rest

unfoldable pub decimal : ℕ → Bytes
unfolding digits_before
decimal n = digits_before (suc n) n []

decimal_test : decimal 9042 ≡ bytes "9042"
unfolding decimal
decimal_test = refl

-- The number that the digits read, after `n`.
read_digits : ℕ → Bytes → ℕ
read_digits n [] = n
read_digits n (d ∷ ds) = read_digits (n * 10 + (d - b'0')) ds

read_digits-digits_before :
    (fuel n : ℕ) (after : Bytes)
    → n < fuel
    → read_digits 0 (digits_before fuel n after) ≡ read_digits n after
unfolding read_digits digits_before
read_digits-digits_before zero n after h = absurd (omega (arith, h))
read_digits-digits_before (suc fuel) n after h = elim (Bool-cases (n / 10 == 0)) [
  | inl e ↦ rw e (ap (λ k. read_digits k after) (ground (arith, e)))
  | inr e ↦ rw e (
      read_digits-digits_before fuel (n / 10) ((b'0' + n % 10) ∷ after) (ground (arith, e, h))
      ∙ ap (λ k. read_digits k after) (omega arith))
]

-- Different numbers have different numerals.
pub decimal_injective : (m n : ℕ) → decimal m ≡ decimal n → m ≡ n
unfolding decimal read_digits
decimal_injective m n h =
    sym (read_digits-digits_before (suc m) m [] (omega arith))
    ∙ ap (read_digits 0) h
    ∙ read_digits-digits_before (suc n) n [] (omega arith)
