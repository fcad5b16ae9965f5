-- ===== src/Bits/Join.antt =====
-- Quotient and remainder by a power of two, and the number that they make up.
use native.Mathlib.Nat.{one-le-pow, add_comm, add-mul-div_right, add-mul-mod_self_right}
use native.Mathlib.Nat.{div-eq_of_lt, mod-eq_of_lt}
use libkatherine.Base.{ℕ, ◌+◌, ◌*◌, ◌/◌, ◌%◌, ◌^◌, ◌<◌, ◌≡◌, arith}

pub rejoin : (k a : ℕ) → a / 2 ^ k * 2 ^ k + a % 2 ^ k ≡ a
rejoin k a = omega (arith, one-le-pow k 2 (omega arith))

pub join_div : (k q b : ℕ) → b < 2 ^ k → (q * 2 ^ k + b) / 2 ^ k ≡ q
join_div k q b h =
    rw
      (add_comm (q * 2 ^ k) b, add-mul-div_right b q (one-le-pow k 2 (omega arith)), div-eq_of_lt h)
      (omega arith)

pub join_mod : (k q b : ℕ) → b < 2 ^ k → (q * 2 ^ k + b) % 2 ^ k ≡ b
join_mod k q b h = rw (add_comm (q * 2 ^ k) b, add-mul-mod_self_right b q (2 ^ k)) (mod-eq_of_lt h)
