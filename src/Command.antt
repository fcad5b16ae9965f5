-- ===== src/Command.antt =====
-- c/src/command_interface.h: the eight bytes of a command. Byte 6 is the code of the command, byte 4
-- a register or a DAC, bytes 0 to 3 a little-endian payload. A value of a signed type stands for its
-- two's complement bit pattern, a float for the pattern that `*(int *) &value` reads.
pub mod CmdType
pub mod HwCmdType
pub mod Words
use libkatherine.Base.{ℕ, bit_and, bit_or, u8, u32, ◌<<◌, ◌>>>◌, Bool, true, not, List, [], ◌∷◌}
use libkatherine.Base.{if◌then◌else◌}
use libkatherine.Session.{Session, cmd}

-- `char cmd[8]`, from its bytes.
abbrev pub packet : ℕ → ℕ → ℕ → ℕ → ℕ → ℕ → List ℕ
packet b₀ b₁ b₂ b₃ b₄ b₆ = b₀ ∷ b₁ ∷ b₂ ∷ b₃ ∷ b₄ ∷ 0 ∷ b₆ ∷ 0 ∷ []

unfoldable pub cmd6_bytes : ℕ → List ℕ
cmd6_bytes val6 = packet 0 0 0 0 0 (u8 val6)

unfoldable pub cmd60_bytes : ℕ → ℕ → List ℕ
cmd60_bytes val6 val0 = packet (u8 val0) 0 0 0 0 (u8 val6)

-- `katherine_cmd_i64` on an empty `cmd` whose bytes 4 and 6 are set.
unfoldable pub cmd64_i64_bytes : ℕ → ℕ → ℕ → List ℕ
cmd64_i64_bytes val6 val4 value =
    let bits = u32 value in
    packet (bit_and bits 0xff) (bit_and (bits >>> 8) 0xff) (bit_and (bits >>> 16) 0xff)
      (bit_and (bits >>> 24) 0xff) (u8 val4) (u8 val6)

-- `katherine_cmd6`
unfoldable pub cmd6 : ℕ → Session
cmd6 val6 = cmd (cmd6_bytes val6)

-- `katherine_cmd60`
unfoldable pub cmd60 : ℕ → ℕ → Session
cmd60 val6 val0 = cmd (cmd60_bytes val6 val0)

-- `katherine_cmd64_i64`
unfoldable pub cmd64_i64 : ℕ → ℕ → ℕ → Session
cmd64_i64 val6 val4 value = cmd (cmd64_i64_bytes val6 val4 value)

-- `katherine_cmd6_i64`
unfoldable pub cmd6_i64 : ℕ → ℕ → Session
cmd6_i64 val6 value = cmd (cmd64_i64_bytes val6 0 value)

-- `katherine_cmd6_float`, of the bit pattern of the float.
unfoldable pub cmd6_float : ℕ → ℕ → Session
cmd6_float val6 bits = cmd (
    packet (bit_and bits 0xff) (bit_and (bits >>> 8) 0xff) (bit_and (bits >>> 16) 0xff)
      (bit_and (bits >>> 24) 0xff) 0 (u8 val6))

abbrev pub of_bool : Bool → ℕ
of_bool b = if b then 1 else 0

-- `katherine_general_config_word`, of the three fields of the configuration that it reads.
unfoldable pub general_config_word : (polarity_holes gray_disable enabled : Bool) → ℕ
general_config_word polarity_holes gray_disable enabled =
    let word = bit_or 0 (of_bool (not polarity_holes) << 0) in
    let word = bit_or word (of_bool (not gray_disable) << 3) in
    let word = bit_or word (1 << 4) in
    let word = bit_or word (of_bool enabled << 5) in bit_or word (1 << 6)
