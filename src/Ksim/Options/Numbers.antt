-- ===== src/Ksim/Options/Numbers.antt =====
-- Numbers on the command line of tools/ksim/main.c, in decimal.
use libkatherine.Base.{ℕ, zero, suc, ◌+◌, ◌-◌, ◌*◌, ◌/◌, ◌%◌, ◌^◌, ◌<◌, ◌≡◌, refl, arith}
use libkatherine.Base.{[], ◌∷◌, if◌then◌else◌, ltb, leb, Text}
use libkatherine.Base.{none, some, Bool-cases, inl, inr}
use native.Mathlib.Nat.{pow-suc}
use libkatherine.Status.{decimal}
use libkatherine.Status.Chip.{decimal_round}
use libkatherine.Ksim.Options.{
  scan, skip_space, magnitude, signed, strtoull, parse_u64, parse_u32, parse_port,
}

scan_digit : (n d : ℕ) (rest : Text) → d < 10 → scan n ((48 + d) ∷ rest) ≡ scan (10 * n + d) rest
unfolding scan
scan_digit n d rest h = ground arith

scan_end : (n : ℕ) → scan n [] ≡ (n, [])
unfolding scan
scan_end n = refl

scan-decimal :
    (fuel n : ℕ) (rest : Text)
    → n < 10 ^ suc fuel
    → scan 0 (decimal (suc fuel) n rest) ≡ scan n rest
scan-decimal zero n rest h =
    ground (arith, pow-suc 10 0, decimal_round 0 n rest, scan_digit 0 n rest)
scan-decimal (suc fuel) n rest h = ground (
  arith,
  pow-suc 10 (suc fuel),
  decimal_round (suc fuel) n rest,
  scan_digit 0 n rest,
  scan_digit (n / 10) (n % 10) rest,
  scan-decimal fuel (n / 10) ((48 + n % 10) ∷ rest),
)

-- A number in at most twenty-five digits.
abbrev pub written : ℕ → Text
written n = decimal 25 n []

-- A printed number begins with a digit.
leading :
    (fuel n : ℕ) (rest : Text)
    → n < 10 ^ suc fuel
    → (d : ℕ) × (t : Text) × (d < 10) × (decimal (suc fuel) n rest ≡ (48 + d) ∷ t)
leading zero n rest h =
    (n % 10, rest, omega arith, ground (arith, pow-suc 10 0, decimal_round 0 n rest))
leading (suc fuel) n rest h = elim (Bool-cases (ltb n 10)) [
  | inl e ↦ (n % 10, rest, omega arith, ground (arith, e, decimal_round (suc fuel) n rest))
  | inr e ↦
      let (d, t, small, shape) =
        leading fuel (n / 10) ((48 + n % 10) ∷ rest) (ground (arith, e, pow-suc 10 (suc fuel))) in
      (d, t, small, ground (arith, e, shape, decimal_round (suc fuel) n rest))
]

digit_first :
    (d : ℕ) (t : Text)
    → d < 10
    → strtoull ((48 + d) ∷ t)
      ≡ (if leb (2 ^ 64) (scan 0 ((48 + d) ∷ t)).0 then none else some (scan 0 ((48 + d) ∷ t)))
unfolding strtoull skip_space signed magnitude
digit_first d t h = ground arith

strtoull-written :
    (n : ℕ) → n < 10 ^ 25 → strtoull (written n) ≡ (if leb (2 ^ 64) n then none else some (n, []))
strtoull-written n h =
    let (d, t, small, shape) = leading 24 n [] h in
    ground (arith, shape, digit_first d t small, scan-decimal 24 n [] h, scan_end n)

-- A number that is written in decimal, in at most twenty-five digits, is parsed as itself by each of
-- the three parsers if it fits the width of that parser, and is refused if it does not.
pub parse_u64-written :
    (n : ℕ)
    → n < 10 ^ 25
    → (parse_u64 (some (written n)) ≡ (if ltb n (2 ^ 64) then some n else none))
      × (parse_u32 (some (written n)) ≡ (if ltb n (2 ^ 32) then some n else none))
      × (parse_port (some (written n)) ≡ (if ltb n (2 ^ 16) then some n else none))
unfolding parse_u64 parse_u32 parse_port
parse_u64-written n h =
    let e = strtoull-written n h in (ground (arith, e), ground (arith, e), ground (arith, e))

-- A number from 1 to `2 ^ 64 - 1` behind a minus sign is taken for its complement by 64 bits.
pub parse_u64_negative :
    (n : ℕ) → 0 < n → n < 2 ^ 64 → parse_u64 (some (b'-' ∷ written n)) ≡ some (2 ^ 64 - n)
unfolding parse_u64 strtoull skip_space signed magnitude
parse_u64_negative n pos h =
    let (d, t, small, shape) = leading 24 n [] (omega arith) in
    ground (arith, shape, scan-decimal 24 n [] (omega arith), scan_end n)
