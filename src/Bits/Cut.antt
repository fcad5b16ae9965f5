-- ===== src/Bits/Cut.antt =====
-- Shifting and masking commute with `&` and `|`.
use native.Mathlib.Nat.{pow-suc, one-le-pow}
use libkatherine.Base.{ℕ, zero, suc, ◌+◌, ◌*◌, ◌/◌, ◌%◌, ◌^◌, ◌<◌, bit_and, bit_or}
use libkatherine.Base.{◌≡◌, ap, ap₂, ◌∙◌, sym, arith}
use libkatherine.Bits.Step.{bit_and_step, bit_or_step}
use libkatherine.Bits.Split.{bit_and_split, bit_or_split}
use libkatherine.Bits.Join.{join_div, join_mod, rejoin}

pub bit_or-lt : (k a b : ℕ) → a < 2 ^ k → b < 2 ^ k → bit_or a b < 2 ^ k
bit_or-lt zero zero zero ha hb = omega arith
bit_or-lt zero (suc a) b ha hb = absurd (omega arith)
bit_or-lt zero zero (suc b) ha hb = absurd (omega arith)
bit_or-lt (suc k) a b ha hb =
    omega (arith, bit_or_step a b, pow-suc 2 k, bit_or-lt k (a / 2) (b / 2))

pub bit_and-lt : (k a b : ℕ) → a < 2 ^ k → b < 2 ^ k → bit_and a b < 2 ^ k
bit_and-lt zero zero zero ha hb = omega arith
bit_and-lt zero (suc a) b ha hb = absurd (omega arith)
bit_and-lt zero zero (suc b) ha hb = absurd (omega arith)
bit_and-lt (suc k) a b ha hb =
    omega (arith, bit_and_step a b, pow-suc 2 k, bit_and-lt k (a / 2) (b / 2))

module _ (k a b : ℕ) where
  low_a : a % 2 ^ k < 2 ^ k
  low_a = omega (arith, one-le-pow k 2)

  low_b : b % 2 ^ k < 2 ^ k
  low_b = omega (arith, one-le-pow k 2)

  whole_or : bit_or a b ≡ bit_or (a / 2 ^ k) (b / 2 ^ k) * 2 ^ k + bit_or (a % 2 ^ k) (b % 2 ^ k)
  whole_or =
      ap₂ bit_or (sym (rejoin k a)) (sym (rejoin k b))
      ∙ bit_or_split k (a / 2 ^ k) (b / 2 ^ k) (a % 2 ^ k) (b % 2 ^ k) low_a low_b

  whole_and :
      bit_and a b ≡ bit_and (a / 2 ^ k) (b / 2 ^ k) * 2 ^ k + bit_and (a % 2 ^ k) (b % 2 ^ k)
  whole_and =
      ap₂ bit_and (sym (rejoin k a)) (sym (rejoin k b))
      ∙ bit_and_split k (a / 2 ^ k) (b / 2 ^ k) (a % 2 ^ k) (b % 2 ^ k) low_a low_b

  pub bit_or-div : bit_or a b / 2 ^ k ≡ bit_or (a / 2 ^ k) (b / 2 ^ k)
  bit_or-div = ap (λ t. t / 2 ^ k) whole_or ∙ join_div k _ _ (bit_or-lt k _ _ low_a low_b)

  pub bit_or-mod : bit_or a b % 2 ^ k ≡ bit_or (a % 2 ^ k) (b % 2 ^ k)
  bit_or-mod = ap (λ t. t % 2 ^ k) whole_or ∙ join_mod k _ _ (bit_or-lt k _ _ low_a low_b)

  pub bit_and-div : bit_and a b / 2 ^ k ≡ bit_and (a / 2 ^ k) (b / 2 ^ k)
  bit_and-div = ap (λ t. t / 2 ^ k) whole_and ∙ join_div k _ _ (bit_and-lt k _ _ low_a low_b)

  pub bit_and-mod : bit_and a b % 2 ^ k ≡ bit_and (a % 2 ^ k) (b % 2 ^ k)
  bit_and-mod = ap (λ t. t % 2 ^ k) whole_and ∙ join_mod k _ _ (bit_and-lt k _ _ low_a low_b)
