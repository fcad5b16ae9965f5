-- ===== src/Status/Chip.antt =====
-- The chip identifier, printed by c/src/status.c and encoded by c/src/emu/emulator.c.
use libkatherine.Base.{ℕ, zero, suc, ◌+◌, ◌-◌, ◌*◌, ◌/◌, ◌%◌, ◌^◌, ◌<◌, ◌≡◌, refl, ◌∙◌, ap, arith}
use libkatherine.Base.{List, [], ◌∷◌, false, if◌then◌else◌, ltb, leb, ◌&&◌, bit_and, bit_or}
use libkatherine.Base.{◌<<◌}
use native.Mathlib.Nat.{pow-suc}
use libkatherine.Bits.Split.{bit_and_mask, bit_or_split, zero-bit_or, bit_or-zero}
use libkatherine.Status.{decimal, chip_string}
use libkatherine.Emu.Respond.{read_digits, skip_wafer, encode_fields, encode_chip_id}

-- What a scan of digits onto `n` comes to in front of something that is no digit.
read_digit :
    (n d : ℕ) (rest : List ℕ)
    → d < 10
    → n < 2 ^ 20
    → read_digits n ((48 + d) ∷ rest) ≡ read_digits (10 * n + d) rest
unfolding read_digits
read_digit n d rest h small = ground arith

pub decimal_round :
    (fuel n : ℕ) (rest : List ℕ)
    → decimal (suc fuel) n rest
      ≡ (if ltb n 10 then (48 + n % 10) ∷ rest else decimal fuel (n / 10) ((48 + n % 10) ∷ rest))
unfolding decimal
decimal_round fuel n rest = refl

-- Reading the digits that are printed gives the number, and goes on behind it.
read_digits-decimal :
    (fuel n : ℕ) (rest : List ℕ)
    → n < 10 ^ suc fuel
    → n < 2 ^ 20
    → read_digits 0 (decimal (suc fuel) n rest) ≡ read_digits n rest
read_digits-decimal zero n rest h small =
    ground (arith, pow-suc 10 0, decimal_round 0 n rest, read_digit 0 n rest)
read_digits-decimal (suc fuel) n rest h small = ground (
  arith,
  pow-suc 10 (suc fuel),
  decimal_round (suc fuel) n rest,
  read_digit 0 n rest,
  read_digit (n / 10) (n % 10) rest,
  read_digits-decimal fuel (n / 10) ((48 + n % 10) ∷ rest),
)

-- A character that is no digit ends the scan.
read_digits_stop :
    (n c : ℕ) (rest : List ℕ)
    → (leb 48 c && leb c 57) ≡ false
    → read_digits n (c ∷ rest) ≡ (n, c ∷ rest)
unfolding read_digits
read_digits_stop n c rest h = ground arith

-- A printed identifier: the letter of `n` from 1 to 26, the column and the wafer.
abbrev printed : ℕ → ℕ → ℕ → List ℕ
printed n y w = (64 + n) ∷ decimal 2 y (45 ∷ 87 ∷ 48 ∷ 48 ∷ 48 ∷ decimal 4 w [])

read_nothing : (w : ℕ) → read_digits w [] ≡ (w, [])
unfolding read_digits
read_nothing w = refl

read_zeros : (rest : List ℕ) → read_digits 0 (48 ∷ 48 ∷ 48 ∷ rest) ≡ read_digits 0 rest
unfolding read_digits
read_zeros rest = refl

skip_dash : (rest : List ℕ) → skip_wafer (45 ∷ 87 ∷ rest) ≡ rest
unfolding skip_wafer
skip_dash rest = refl

encode-letter :
    (n : ℕ) (rest : List ℕ)
    → 0 < n
    → n < 16
    → encode_chip_id ((64 + n) ∷ rest) ≡ encode_fields (n - 1) rest
unfolding encode_chip_id
encode-letter n rest pos hn =
    let off : 64 + n - 65 ≡ n - 1 = omega arith in
    ground (arith, ap (λ x. encode_fields x rest) off)

-- What the two numbers of an identifier are packed into.
packed :
    (x y w : ℕ)
    → x < 15
    → y < 16
    → w < 4096
    → bit_or (bit_or (bit_and w 0xFFF << 8) (bit_and y 0xF << 4)) (bit_and (x + 1) 0xF)
      ≡ w * 256 + y * 16 + (x + 1)
packed x y w hx hy hw = ground (
  arith,
  bit_and_mask 12 w,
  bit_and_mask 4 y,
  bit_and_mask 4 (x + 1),
  bit_or_split 8 w 0 0 (y * 16) (omega arith) (omega arith),
  bit_or_split 4 (w * 16 + y) 0 0 (x + 1) (omega arith) (omega arith),
  bit_or-zero w,
  bit_or-zero (w * 16 + y),
  zero-bit_or (y * 16),
  zero-bit_or (x + 1),
)

read_column :
    (y : ℕ) (rest : List ℕ) → y < 16 → read_digits 0 (decimal 2 y (45 ∷ rest)) ≡ (y, 45 ∷ rest)
read_column y rest h =
    read_digits-decimal 1 y (45 ∷ rest) (omega arith) (omega arith)
    ∙ read_digits_stop y 45 rest refl

read_wafer : (w : ℕ) → w < 4096 → read_digits 0 (48 ∷ 48 ∷ 48 ∷ decimal 4 w []) ≡ (w, [])
read_wafer w h =
    read_zeros (decimal 4 w [])
    ∙ read_digits-decimal 3 w [] (omega arith) (omega arith)
    ∙ read_nothing w

encode-fields :
    (x y w : ℕ)
    → x < 15
    → y < 16
    → w < 4096
    → encode_fields x (decimal 2 y (45 ∷ 87 ∷ 48 ∷ 48 ∷ 48 ∷ decimal 4 w []))
      ≡ w * 256 + y * 16 + (x + 1)
unfolding encode_fields
encode-fields x y w hx hy hw = ground (
  arith,
  read_column y (87 ∷ 48 ∷ 48 ∷ 48 ∷ decimal 4 w []) hy,
  skip_dash (48 ∷ 48 ∷ 48 ∷ decimal 4 w []),
  read_wafer w hw,
  packed x y w hx hy hw,
)

chip_string-printed :
    (word : ℕ) → chip_string word ≡ printed (word % 16) (word / 16 % 16) (word / 256 % 4096)
unfolding chip_string
chip_string-printed word =
    ground (arith, bit_and_mask 4 word, bit_and_mask 4 (word / 16), bit_and_mask 12 (word / 256))

-- A chip identifier of twenty bits whose letter is not absent (its low four bits are not zero) is what
-- the emulator encodes its own printed form as: the string that the client prints for an identifier
-- identifies it.
pub encode_chip_id-chip_string :
    (word : ℕ) → word < 2 ^ 20 → 0 < word % 16 → encode_chip_id (chip_string word) ≡ word
encode_chip_id-chip_string word h pos = ground (
  arith,
  chip_string-printed word,
  encode-letter (word % 16)
      (decimal 2 (word / 16 % 16) (45 ∷ 87 ∷ 48 ∷ 48 ∷ 48 ∷ decimal 4 (word / 256 % 4096) [])),
  encode-fields (word % 16 - 1) (word / 16 % 16) (word / 256 % 4096),
)
