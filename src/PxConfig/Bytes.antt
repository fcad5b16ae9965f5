-- ===== src/PxConfig/Bytes.antt =====
-- The four bytes of a configuration word, and the byte of one pixel.
use libkatherine.Base.{ℕ, zero, suc, ◌+◌, ◌-◌, ◌*◌, ◌/◌, ◌%◌, ◌^◌, ◌<◌, bit_and, bit_or}
use libkatherine.Base.{◌≡◌, ap, ◌∙◌, arith, ◌==◌, if◌then◌else◌}
use libkatherine.Base.{Bool, Bool-cases, ==_iff, ◌&&◌, inl, inr, u32}
use libkatherine.Bits.Split.{bit_or-zero, zero-bit_or, bit_and-zero, bit_and_ones}
use libkatherine.Bits.Cut.{bit_or-div, bit_or-mod, bit_and-div, bit_and-mod}
use libkatherine.PxConfig.{Words, get_byte, set_byte}
use libkatherine.Px.{Coord}

-- Byte `k` of a word, counted from the highest.
abbrev pub byte_of : ℕ → ℕ → ℕ
byte_of w k = w / 2 ^ (8 * (3 - k)) % 2 ^ 8

byte_of-bit_or : (a b k : ℕ) → byte_of (bit_or a b) k ≡ bit_or (byte_of a k) (byte_of b k)
byte_of-bit_or a b k =
    ap (λ t. t % 2 ^ 8) (bit_or-div (8 * (3 - k)) a b)
    ∙ bit_or-mod 8 (a / 2 ^ (8 * (3 - k))) (b / 2 ^ (8 * (3 - k)))

byte_of-bit_and : (a b k : ℕ) → byte_of (bit_and a b) k ≡ bit_and (byte_of a k) (byte_of b k)
byte_of-bit_and a b k =
    ap (λ t. t % 2 ^ 8) (bit_and-div (8 * (3 - k)) a b)
    ∙ bit_and-mod 8 (a / 2 ^ (8 * (3 - k))) (b / 2 ^ (8 * (3 - k)))

-- `(uint32_t) (b << (8 * (3 - k)))` has `b` at byte `k` and zero elsewhere.
pub byte_of-placed :
    (b k j : ℕ)
    → b < 256
    → k < 4
    → j < 4
    → byte_of (u32 (b * 2 ^ (8 * (3 - k)))) j ≡ (if k == j then b else 0)
byte_of-placed b zero (suc (suc (suc zero))) hb hk hj = omega arith
byte_of-placed b (suc zero) (suc (suc (suc zero))) hb hk hj = omega arith
byte_of-placed b (suc (suc zero)) (suc (suc (suc zero))) hb hk hj = omega arith
byte_of-placed b (suc (suc (suc zero))) (suc (suc (suc zero))) hb hk hj = omega arith
byte_of-placed b k j hb hk hj = omega arith

-- `~((uint32_t) 0xFF << (8 * (3 - k)))` clears byte `k` alone.
byte_of-hole :
    (k j : ℕ)
    → k < 4
    → j < 4
    → byte_of (2 ^ 32 - 1 - u32 (0xff * 2 ^ (8 * (3 - k)))) j ≡ (if k == j then 0 else 255)
byte_of-hole zero (suc (suc (suc zero))) hk hj = omega arith
byte_of-hole (suc zero) (suc (suc (suc zero))) hk hj = omega arith
byte_of-hole (suc (suc zero)) (suc (suc (suc zero))) hk hj = omega arith
byte_of-hole (suc (suc (suc zero))) (suc (suc (suc zero))) hk hj = omega arith
byte_of-hole k j hk hj = omega arith

byte_of-lt : (w k : ℕ) → byte_of w k < 256
byte_of-lt w k = omega arith

-- A byte is or-ed into byte `k` of a word.
pub byte_of-or_placed :
    (w b k j : ℕ)
    → b < 256
    → k < 4
    → j < 4
    → byte_of (bit_or w (u32 (b * 2 ^ (8 * (3 - k))))) j
      ≡ (if k == j then bit_or (byte_of w j) b else byte_of w j)
byte_of-or_placed w b k j hb hk hj =
    byte_of-bit_or w (u32 (b * 2 ^ (8 * (3 - k)))) j
    ∙ ap (bit_or (byte_of w j)) (byte_of-placed b k j hb hk hj)
    ∙ ground (arith, bit_or-zero (byte_of w j))

-- A byte replaces byte `k` of a word.
byte_of-replaced :
    (w b k j : ℕ)
    → b < 256
    → k < 4
    → j < 4
    → byte_of
        (bit_or
          (bit_and w (2 ^ 32 - 1 - u32 (0xff * 2 ^ (8 * (3 - k)))))
          (u32 (b * 2 ^ (8 * (3 - k)))))
        j
      ≡ (if k == j then b else byte_of w j)
byte_of-replaced w b k j hb hk hj =
    byte_of-or_placed (bit_and w (2 ^ 32 - 1 - u32 (0xff * 2 ^ (8 * (3 - k))))) b k j hb hk hj
    ∙ rw (byte_of-bit_and w (2 ^ 32 - 1 - u32 (0xff * 2 ^ (8 * (3 - k)))) j, byte_of-hole k j hk hj)
        (ground (arith, bit_and-zero (byte_of w j), bit_and_ones 8 (byte_of w j), zero-bit_or b))

-- The coordinates of a pixel of the 256 by 256 matrix.
pub record IsCoord (c : Coord) : Type 0 where
  pub x_lt : c.x < 256
  pub y_lt : c.y < 256

unfoldable pub same_coord : Coord → Coord → Bool
same_coord c d = c.x == d.x && c.y == d.y

-- The word of every pixel lies in the array.
pub index_in_words : (c : Coord) → IsCoord c → 64 * c.x + (255 - c.y) / 2 ^ 2 < 16384
index_in_words c h = omega arith

-- The word and the byte of a pixel, by its row from the top.
abbrev pub word_index : Coord → ℕ
word_index c = 64 * c.x + (255 - c.y) / 2 ^ 2

abbrev pub byte_index : Coord → ℕ
byte_index c = (255 - c.y) % 4

-- Two pixels share a byte only if they are one.
pub same_place :
    (c d : Coord)
    → IsCoord c
    → IsCoord d
    → (word_index c == word_index d && byte_index c == byte_index d) ≡ same_coord c d
unfolding same_coord
same_place c d hc hd = ground arith

-- For pixels of the 256 by 256 matrix and a byte below 256: reading any pixel after one has been set
-- gives the new byte there, and the old ones elsewhere.
pub get_byte-set_byte :
    (words : Words) (c d : Coord) (b : ℕ)
    → IsCoord c
    → IsCoord d
    → b < 256
    → get_byte (set_byte words c b) d ≡ (if same_coord c d then b else get_byte words d)
unfolding get_byte set_byte same_coord
get_byte-set_byte words c d b hc hd hb =
    rw (← same_place c d hc hd) (elim (Bool-cases (word_index c == word_index d)) [
      | inl e ↦
          rw (e, (==_iff (word_index c) (word_index d)).0 e)
            (byte_of-replaced (words (word_index d)) b (byte_index c) (byte_index d) hb
              (omega arith) (omega arith))
      | inr e ↦ rw e
    ])
