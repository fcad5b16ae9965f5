-- ===== src/Bits/Step.antt =====
-- One binary digit at a time: what `&` and `|` make of the lowest digits of two numbers, and of the
-- numbers without them.
use Prim.Native.Nat.{digits, bitwise, bit_and-bitwise, bit_or-bitwise}
use libkatherine.Base.{ℕ, zero, suc, ◌+◌, ◌*◌, ◌/◌, ◌%◌, ◌≤◌, min, max, bit_and, bit_or}
use libkatherine.Base.{◌≡◌, refl, ◌∙◌, sym, ap, arith}

module _ (finish : ℕ → ℕ) (digit : ℕ → ℕ → ℕ) where
  digits-zero : (fuel y : ℕ) → digits finish digit fuel 0 y ≡ finish y
  digits-zero zero y = refl
  digits-zero (suc fuel) y = refl

  -- Fuel beyond the first number is never used.
  digits_fuels :
      (fuel more x y : ℕ)
      → x ≤ fuel
      → x ≤ more
      → digits finish digit fuel x y ≡ digits finish digit more x y
  digits_fuels fuel more zero y h k = digits-zero fuel y ∙ sym (digits-zero more y)
  digits_fuels zero more (suc x) y h k = absurd (omega arith)
  digits_fuels (suc fuel) zero (suc x) y h k = absurd (omega arith)
  digits_fuels (suc fuel) (suc more) (suc x) y h k =
      ap (λ rest. rest * 2 + digit (suc x % 2) (y % 2))
        (digits_fuels fuel more (suc x / 2) (y / 2) (omega arith) (omega arith))

  peel :
      (x y : ℕ)
      → bitwise finish digit (suc x) y
        ≡ bitwise finish digit (suc x / 2) (y / 2) * 2 + digit (suc x % 2) (y % 2)
  peel x y =
      ap (λ rest. rest * 2 + digit (suc x % 2) (y % 2))
        (digits_fuels x (suc x / 2) (suc x / 2) (y / 2) (omega arith) (omega arith))

-- The lowest digit of `x & y` is set if both are.
pub bit_and_step : (x y : ℕ) → min (x % 2) (y % 2) + 2 * bit_and (x / 2) (y / 2) ≡ bit_and x y
bit_and_step zero y = simp bit_and-bitwise (omega arith)
bit_and_step (suc n) y = simp bit_and-bitwise (omega (arith, peel (λ _. 0) min n y))

-- The lowest digit of `x | y` is set if one is.
pub bit_or_step : (x y : ℕ) → max (x % 2) (y % 2) + 2 * bit_or (x / 2) (y / 2) ≡ bit_or x y
bit_or_step zero y = simp bit_or-bitwise (omega arith)
bit_or_step (suc n) y = simp bit_or-bitwise (omega (arith, peel (λ low. low) max n y))
