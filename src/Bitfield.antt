-- ===== src/Bitfield.antt =====
-- c/src/bitfields.h: the macros MASK, EXTRACT and INSERT. A bit field is a start bit, a width and
-- the type that EXTRACT casts to. All arithmetic is on uint64_t, since the mask is unsigned long long.
pub mod Arith
pub mod Laws
pub mod Many
use libkatherine.Base.{ℕ, ◌+◌, ◌-◌, ◌^◌, ◌%◌, ◌≤◌, bit_and, bit_or, u64, ◌<<◌, ◌>>>◌}

-- The three macros `_BITS_{bitfield}_{field}_{start,mask,type}`: `bits` is the width of the type.
pub record Field : Type 0 where
  pub start : ℕ
  pub width : ℕ
  pub bits : ℕ

-- `MASK(n)`
unfoldable pub mask : ℕ → ℕ
mask n = 2 ^ n - 1

-- `~x` of a uint64_t
unfoldable pub not64 : ℕ → ℕ
not64 x = 2 ^ 64 - 1 - x

-- `EXTRACT(val, bitfield, name)`
unfoldable pub extract : ℕ → Field → ℕ
unfolding mask
extract val f = bit_and (val >>> f.start) (mask f.width) % 2 ^ f.bits

-- `INSERT(val, bitfield, name, x)`
unfoldable pub insert : ℕ → Field → ℕ → ℕ
unfolding mask not64
insert val f x =
    bit_or (bit_and val (not64 (u64 (mask f.width << f.start))))
      (u64 (bit_and x (mask f.width) << f.start))

-- The field lies in the word, and its type is wide enough for it.
pub record IsField (f : Field) : Type 0 where
  pub in_word : f.start + f.width ≤ 64
  pub in_type : f.width ≤ f.bits
