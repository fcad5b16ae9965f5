-- ===== src/Bitfield/Arith.antt =====
-- INSERT and EXTRACT as arithmetic on the parts of a word: above, in and below the field.
use native.Mathlib.Nat.{one-le-pow, pow-suc, pow-le-pow_right, mod-eq_of_lt}
use native.Mathlib.Nat.{
  mul-le-mul_right, mul_assoc, add-zero, add-suc, zero-mul, zero-add, pow-zero, div-lt_iff_lt-mul,
}
use libkatherine.Base.{ℕ, zero, suc, ◌+◌, ◌-◌, ◌*◌, ◌/◌, ◌%◌, ◌^◌, ◌≤◌, ◌<◌, bit_and, bit_or}
use libkatherine.Base.{◌≡◌, ap, arith}
use libkatherine.Bits.Split.{bit_and_mask, bit_and_ones, bit_and_split, bit_or_split}
use libkatherine.Bits.Split.{bit_and-zero, bit_or-zero, zero-bit_or}
use libkatherine.Bits.Join.{rejoin}
use libkatherine.Bitfield.{Field, IsField, mask, not64, extract, insert}

pub pow_add : (a b : ℕ) → 2 ^ (a + b) ≡ 2 ^ a * 2 ^ b
pow_add a zero = simp (add-zero, pow-zero) (omega arith)
pow_add a (suc b) = rw (add-suc, pow-suc, pow-suc, pow_add a b) (mul_assoc (2 ^ a) (2 ^ b) 2)

pred_times : (n m : ℕ) → 1 ≤ n → (n - 1) * m + m ≡ n * m
pred_times zero m h = absurd (omega arith)
pred_times (suc n) m h = let e : suc n - 1 ≡ n = omega arith in rw e (omega arith)

pub extract_arith :
    (val : ℕ) (f : Field) → IsField f → extract val f ≡ val / 2 ^ f.start % 2 ^ f.width
unfolding extract mask
extract_arith val f ok = rw (bit_and_mask f.width (val / 2 ^ f.start)) (
    mod-eq_of_lt
      (omega (arith, one-le-pow f.width 2, pow-le-pow_right {n = 2} (omega arith) ok.in_type)))

-- A word of 64 bits that is cut at the two ends of a field.
module _ (s w r : ℕ) (cut : s + w + r ≡ 64) where
  cut_pow : 2 ^ r * 2 ^ w * 2 ^ s ≡ 2 ^ 64
  cut_pow =
      omega (
        arith,
        ap (λ (t : ℕ). 2 ^ t) cut,
        pow_add (s + w) r,
        ap (λ (t : ℕ). t * 2 ^ r) (pow_add s w),
      )

  field_fits : (x : ℕ) → x < 2 ^ w → x * 2 ^ s < 2 ^ 64
  field_fits x h = omega (
    arith,
    cut_pow,
    one-le-pow s 2,
    mul-le-mul_right (2 ^ s) h,
    mul-le-mul_right (2 ^ w * 2 ^ s) (one-le-pow r 2 (omega arith)),
  )

  not64_mask : not64 ((2 ^ w - 1) * 2 ^ s) ≡ ((2 ^ r - 1) * 2 ^ w + 0) * 2 ^ s + (2 ^ s - 1)
  unfolding not64
  not64_mask = omega (
    arith,
    cut_pow,
    pred_times (2 ^ w) (2 ^ s) (one-le-pow w 2 (omega arith)),
    ap (λ (t : ℕ). t * 2 ^ s) (pred_times (2 ^ r) (2 ^ w) (one-le-pow r 2 (omega arith))),
    one-le-pow s 2 (omega arith),
  )

  high_lt : (v : ℕ) → v < 2 ^ 64 → v / 2 ^ s / 2 ^ w < 2 ^ r
  high_lt v h =
      (div-lt_iff_lt-mul (one-le-pow w 2 (omega arith))).1
        ((div-lt_iff_lt-mul (one-le-pow s 2 (omega arith))).1 (rw cut_pow h))

  -- `val & ~(mask << start)` clears the field.
  clear_field :
      (v : ℕ)
      → v < 2 ^ 64
      → bit_and v (not64 ((2 ^ w - 1) * 2 ^ s)) ≡ v / 2 ^ s / 2 ^ w * 2 ^ w * 2 ^ s + v % 2 ^ s
  clear_field v h =
      let high : bit_and (v / 2 ^ s) ((2 ^ r - 1) * 2 ^ w + 0) ≡ v / 2 ^ s / 2 ^ w * 2 ^ w =
        ground (
          arith,
          rejoin w (v / 2 ^ s),
          bit_and_split w (v / 2 ^ s / 2 ^ w) (2 ^ r - 1) (v / 2 ^ s % 2 ^ w) 0,
          bit_and_ones r (v / 2 ^ s / 2 ^ w) (high_lt v h),
          bit_and-zero (v / 2 ^ s % 2 ^ w),
          one-le-pow w 2,
        ) in
      rw not64_mask (
        ground (
          arith,
          rejoin s v,
          bit_and_split s (v / 2 ^ s) ((2 ^ r - 1) * 2 ^ w + 0) (v % 2 ^ s) (2 ^ s - 1),
          bit_and_ones s (v % 2 ^ s),
          high,
          one-le-pow s 2,
        ))

  -- `cleared | (x << start)` fills it.
  fill_field :
      (a x b : ℕ)
      → x < 2 ^ w
      → b < 2 ^ s
      → bit_or (a * 2 ^ w * 2 ^ s + b) (x * 2 ^ s) ≡ a * 2 ^ w * 2 ^ s + x * 2 ^ s + b
  fill_field a x b hx hb =
      let high : bit_or (a * 2 ^ w) x ≡ a * 2 ^ w + x =
        simp (add-zero, zero-mul, zero-add, bit_or-zero, zero-bit_or) at
          (bit_or_split w a 0 0 x (one-le-pow w 2 (omega arith)) hx) in
      let whole : bit_or (a * 2 ^ w * 2 ^ s + b) (x * 2 ^ s) ≡ bit_or (a * 2 ^ w) x * 2 ^ s + b =
        simp (add-zero, bit_or-zero) at
          (bit_or_split s (a * 2 ^ w) x b 0 hb (one-le-pow s 2 (omega arith))) in
      omega (arith, whole, ap (λ (t : ℕ). t * 2 ^ s) high)

pub insert_arith :
    (val : ℕ) (f : Field) (x : ℕ)
    → IsField f
    → val < 2 ^ 64
    → insert val f x
      ≡ val / 2 ^ f.start / 2 ^ f.width * 2 ^ f.width * 2 ^ f.start
        + x % 2 ^ f.width * 2 ^ f.start
        + val % 2 ^ f.start
unfolding insert mask
insert_arith val f x ok h =
    let r : ℕ = 64 - f.start - f.width in
    let cut : f.start + f.width + r ≡ 64 = omega arith in
    let mask_fits : 2 ^ f.width - 1 < 2 ^ f.width = omega (arith, one-le-pow f.width 2) in
    let in_field : x % 2 ^ f.width < 2 ^ f.width = omega (arith, one-le-pow f.width 2) in
    rw
      (
        bit_and_mask f.width x,
        mod-eq_of_lt (field_fits f.start f.width r cut (2 ^ f.width - 1) mask_fits),
        mod-eq_of_lt (field_fits f.start f.width r cut (x % 2 ^ f.width) in_field),
        clear_field f.start f.width r cut val h,
      )
      (fill_field f.start f.width r cut (val / 2 ^ f.start / 2 ^ f.width) (x % 2 ^ f.width)
        (val % 2 ^ f.start) in_field (omega (arith, one-le-pow f.start 2)))
