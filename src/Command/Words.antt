-- ===== src/Command/Words.antt =====
-- The payload of a command is read back from its bytes.
use libkatherine.Base.{ℕ, ◌+◌, ◌*◌, ◌/◌, ◌%◌, ◌^◌, ◌≡◌, refl, arith, length}
use libkatherine.Base.{bit_and, List, Bool, true, false, not, get_or}
use libkatherine.Bits.Split.{bit_and_mask}
use libkatherine.Command.{cmd64_i64_bytes, general_config_word, of_bool}

-- The little-endian word in bytes 0 to 3, as the readout takes it.
abbrev pub payload : List ℕ → ℕ
payload bytes =
    get_or bytes 0 0
    + get_or bytes 1 0 * 2 ^ 8
    + get_or bytes 2 0 * 2 ^ 16
    + get_or bytes 3 0 * 2 ^ 24

byte_mask : (n : ℕ) → bit_and n 0xff ≡ n % 2 ^ 8
byte_mask n = bit_and_mask 8 n

-- The payload of a command is the low 32 bits of the value it was made from, for every value; its
-- code and its register are in bytes 6 and 4, and it has eight bytes, each below 256.
pub payload-cmd64_i64_bytes :
    (val6 val4 value : ℕ)
    → (payload (cmd64_i64_bytes val6 val4 value) ≡ value % 2 ^ 32)
      × (get_or (cmd64_i64_bytes val6 val4 value) 6 0 ≡ val6 % 2 ^ 8)
      × (get_or (cmd64_i64_bytes val6 val4 value) 4 0 ≡ val4 % 2 ^ 8)
      × (length (cmd64_i64_bytes val6 val4 value) ≡ 8)
unfolding cmd64_i64_bytes
payload-cmd64_i64_bytes val6 val4 value = (
  ground (
    arith,
    byte_mask (value % 2 ^ 32),
    byte_mask ((value % 2 ^ 32) / 2 ^ 8),
    byte_mask ((value % 2 ^ 32) / 2 ^ 16),
    byte_mask ((value % 2 ^ 32) / 2 ^ 24),
  ),
  refl,
  refl,
  refl,
)

-- The general configuration register: bit 0 is set for electrons, bit 3 for Gray counting, bit 5 for
-- test pulses, bits 4 and 6 always, and no other.
pub general_config_word_lem :
    (holes gray_disable enabled : Bool)
    → general_config_word holes gray_disable enabled
      ≡ of_bool (not holes) + 8 * of_bool (not gray_disable) + 16 + 32 * of_bool enabled + 64
unfolding general_config_word
general_config_word_lem true true true = refl
general_config_word_lem true true false = refl
general_config_word_lem true false true = refl
general_config_word_lem true false false = refl
general_config_word_lem false true true = refl
general_config_word_lem false true false = refl
general_config_word_lem false false true = refl
general_config_word_lem false false false = refl
