-- ===== src/Bits/Split.antt =====
-- `&` and `|` at variables: both act on the two parts of a word that is cut at any bit.
use libkatherine.Bits.Step.{bit_and_step, bit_or_step}
use native.Mathlib.Nat.{pow-suc, one-le-pow}
use libkatherine.Base.{ℕ, zero, suc, ◌+◌, ◌-◌, ◌*◌, ◌/◌, ◌%◌, ◌^◌, ◌≤◌, ◌<◌, bit_and, bit_or}
use libkatherine.Base.{◌≡◌, refl, ap, arith}

-- Recursion on a bound of the number, since a step goes from `a` to `a / 2`.
bit_or_zero_upto : (n a : ℕ) → a ≤ n → bit_or a 0 ≡ a
bit_or_zero_upto n zero h = refl
bit_or_zero_upto zero (suc a) h = absurd (omega arith)
bit_or_zero_upto (suc n) (suc a) h =
    omega (arith, bit_or_step (suc a) 0, bit_or_zero_upto n (suc a / 2) (omega arith))

pub bit_or-zero : (a : ℕ) → bit_or a 0 ≡ a
bit_or-zero a = bit_or_zero_upto a a (omega arith)

bit_and_zero_upto : (n a : ℕ) → a ≤ n → bit_and a 0 ≡ 0
bit_and_zero_upto n zero h = refl
bit_and_zero_upto zero (suc a) h = absurd (omega arith)
bit_and_zero_upto (suc n) (suc a) h =
    omega (arith, bit_and_step (suc a) 0, bit_and_zero_upto n (suc a / 2) (omega arith))

pub bit_and-zero : (a : ℕ) → bit_and a 0 ≡ 0
bit_and-zero a = bit_and_zero_upto a a (omega arith)

times_pow-suc : (q k : ℕ) → q * 2 ^ suc k ≡ 2 * (q * 2 ^ k)
times_pow-suc q k = omega (arith, ap (λ (t : ℕ). q * t) (pow-suc 2 k))

-- Cut both words at bit `k`: the high parts and the low parts are combined apart.
pub bit_and_split :
    (k p q a b : ℕ)
    → a < 2 ^ k
    → b < 2 ^ k
    → bit_and (p * 2 ^ k + a) (q * 2 ^ k + b) ≡ bit_and p q * 2 ^ k + bit_and a b
bit_and_split zero p q zero zero ha hb = ground arith
bit_and_split zero p q (suc a) b ha hb = absurd (omega arith)
bit_and_split zero p q zero (suc b) ha hb = absurd (omega arith)
bit_and_split (suc k) p q a b ha hb = ground (
  arith,
  bit_and_step (p * 2 ^ suc k + a) (q * 2 ^ suc k + b),
  bit_and_step a b,
  times_pow-suc p k,
  times_pow-suc q k,
  times_pow-suc (bit_and p q) k,
  pow-suc 2 k,
  bit_and_split k p q (a / 2) (b / 2),
)

pub bit_or_split :
    (k p q a b : ℕ)
    → a < 2 ^ k
    → b < 2 ^ k
    → bit_or (p * 2 ^ k + a) (q * 2 ^ k + b) ≡ bit_or p q * 2 ^ k + bit_or a b
bit_or_split zero p q zero zero ha hb = ground arith
bit_or_split zero p q (suc a) b ha hb = absurd (omega arith)
bit_or_split zero p q zero (suc b) ha hb = absurd (omega arith)
bit_or_split (suc k) p q a b ha hb = ground (
  arith,
  bit_or_step (p * 2 ^ suc k + a) (q * 2 ^ suc k + b),
  bit_or_step a b,
  times_pow-suc p k,
  times_pow-suc q k,
  times_pow-suc (bit_or p q) k,
  pow-suc 2 k,
  bit_or_split k p q (a / 2) (b / 2),
)

-- Commuted forms of the two laws of zero.
zero-bit_and_upto : (n b : ℕ) → b ≤ n → bit_and 0 b ≡ 0
zero-bit_and_upto n zero h = refl
zero-bit_and_upto zero (suc b) h = absurd (omega arith)
zero-bit_and_upto (suc n) (suc b) h =
    omega (arith, bit_and_step 0 (suc b), zero-bit_and_upto n (suc b / 2) (omega arith))

pub zero-bit_and : (b : ℕ) → bit_and 0 b ≡ 0
zero-bit_and b = zero-bit_and_upto b b (omega arith)

zero-bit_or_upto : (n b : ℕ) → b ≤ n → bit_or 0 b ≡ b
zero-bit_or_upto n zero h = refl
zero-bit_or_upto zero (suc b) h = absurd (omega arith)
zero-bit_or_upto (suc n) (suc b) h =
    omega (arith, bit_or_step 0 (suc b), zero-bit_or_upto n (suc b / 2) (omega arith))

pub zero-bit_or : (b : ℕ) → bit_or 0 b ≡ b
zero-bit_or b = zero-bit_or_upto b b (omega arith)

-- A mask of `k` ones keeps what fits in it.
pub bit_and_ones : (k a : ℕ) → a < 2 ^ k → bit_and a (2 ^ k - 1) ≡ a
bit_and_ones zero zero h = refl
bit_and_ones zero (suc a) h = absurd (omega arith)
bit_and_ones (suc k) a h =
    ground
      (arith, bit_and_step a (2 ^ suc k - 1), pow-suc 2 k, one-le-pow k 2, bit_and_ones k (a / 2))

-- A mask of `k` ones is the remainder by `2 ^ k`.
pub bit_and_mask : (k a : ℕ) → bit_and a (2 ^ k - 1) ≡ a % 2 ^ k
bit_and_mask k a = ground (
  arith,
  one-le-pow k 2,
  bit_and_split k (a / 2 ^ k) 0 (a % 2 ^ k) (2 ^ k - 1),
  bit_and-zero (a / 2 ^ k),
  bit_and_ones k (a % 2 ^ k),
)
