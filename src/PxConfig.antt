-- ===== src/PxConfig.antt =====
-- c/src/px_config.c and c/include/katherine/px_config.h: the pixel matrix configuration, 65536
-- configuration bytes packed by four into 32-bit words, highest byte first.
-- An array is the function from its indices to its elements. `int` shifts of a byte by up to 24
-- places are read modulo 2 ^ 32, as the cast to uint32_t that follows them does.
pub mod Bytes
pub mod Load
pub mod Fields
pub mod File
use libkatherine.Base.{ℕ, zero, suc, ◌+◌, ◌-◌, ◌*◌, ◌/◌, ◌%◌, ◌^◌, ◌==◌, ltb, if◌then◌else◌}
use libkatherine.Base.{
  bit_and, bit_or, u8, u32, ◌<<◌, ◌>>>◌, Bool, true, false, List, [], ◌∷◌, get_or,
}
use libkatherine.Bitfield.{Field, extract, insert}
use libkatherine.Px.{Coord}

-- `uint32_t words[16384]`, and a store into it.
abbrev pub Words : Type 0
Words = ℕ → ℕ

abbrev pub write : Words → ℕ → ℕ → Words
write words i v j = if i == j then v else words j

-- The fields of a configuration byte.
abbrev pub bmc_px_mask : Field
bmc_px_mask = record { start = 0; width = 1; bits = 1 }

abbrev pub bmc_px_loc_thl : Field
bmc_px_loc_thl = record { start = 1; width = 4; bits = 8 }

abbrev pub bmc_px_test : Field
bmc_px_test = record { start = 5; width = 1; bits = 1 }

-- `dest[(64 * x) + (y >> 2)] |= (uint32_t) (val << (8 * (3 - (y % 4))))`
unfoldable pub or_byte : Words → ℕ → ℕ → ℕ → Words
or_byte dest x y val =
    let i = 64 * x + (y >>> 2) in write dest i (bit_or (dest i) (u32 (val << (8 * (3 - y % 4)))))

-- The loop of `katherine_px_config_load_bmc_data` with `left` rounds to go, at index `i`.
unfoldable pub load_bmc_loop : ℕ → ℕ → (ℕ → ℕ) → Words → Words
load_bmc_loop zero i src dest = dest
load_bmc_loop (suc left) i src dest =
    load_bmc_loop left (i + 1) src (or_byte dest (i % 256) (255 - i / 256) (src i))

-- `katherine_px_config_load_bmc_data`; the words are reset first, and the result code is always 0.
unfoldable pub load_bmc_data : (ℕ → ℕ) → Words
load_bmc_data src = load_bmc_loop 65536 0 src (λ _. 0)

abbrev pub reverse_array : List ℕ
reverse_array = 0 ∷ 8 ∷ 4 ∷ 12 ∷ 2 ∷ 10 ∷ 6 ∷ 14 ∷ 1 ∷ 9 ∷ 5 ∷ 13 ∷ 3 ∷ 11 ∷ 7 ∷ 15 ∷ []

-- The byte that `katherine_px_config_load_bpc_data` makes of one byte of its input.
unfoldable pub from_bpc : ℕ → ℕ
from_bpc b = u8 (bit_or (bit_and b 0x21) (get_or reverse_array (bit_and b 0x1e >>> 1) 0 << 1))

unfoldable pub load_bpc_loop : ℕ → ℕ → (ℕ → ℕ) → Words → Words
load_bpc_loop zero i src dest = dest
load_bpc_loop (suc left) i src dest =
    load_bpc_loop left (i + 1) src (or_byte dest (i % 256) (255 - i / 256) (from_bpc (src i)))

-- `katherine_px_config_load_bpc_data`
unfoldable pub load_bpc_data : (ℕ → ℕ) → Words
load_bpc_data src = load_bpc_loop 65536 0 src (λ _. 0)

-- `_px_config_get_byte`
unfoldable pub get_byte : Words → Coord → ℕ
get_byte words coord =
    let yy = 255 - coord.y in u8 (words (64 * coord.x + (yy >>> 2)) >>> (8 * (3 - yy % 4)))

-- `_px_config_set_byte`
unfoldable pub set_byte : Words → Coord → ℕ → Words
set_byte words coord byte =
    let yy = 255 - coord.y in
    let shift = 8 * (3 - yy % 4) in
    let i = 64 * coord.x + (yy >>> 2) in
    write words i
      (bit_or (bit_and (words i) (2 ^ 32 - 1 - u32 (0xff << shift))) (u32 (byte << shift)))

abbrev pub of_bool : Bool → ℕ
of_bool true = 1
of_bool false = 0

-- `katherine_px_config_set_test_bit`
unfoldable pub set_test_bit : Words → Coord → Bool → Words
set_test_bit words coord enabled =
    set_byte words coord (u8 (insert (get_byte words coord) bmc_px_test (of_bool enabled)))

-- `katherine_px_config_get_test_bit`
unfoldable pub get_test_bit : Words → Coord → Bool
get_test_bit words coord = ltb 0 (extract (get_byte words coord) bmc_px_test)

-- `katherine_px_config_set_mask_bit`
unfoldable pub set_mask_bit : Words → Coord → Bool → Words
set_mask_bit words coord masked =
    set_byte words coord (u8 (insert (get_byte words coord) bmc_px_mask (of_bool masked)))

-- `katherine_px_config_get_mask_bit`
unfoldable pub get_mask_bit : Words → Coord → Bool
get_mask_bit words coord = ltb 0 (extract (get_byte words coord) bmc_px_mask)

-- `katherine_px_config_set_loc_thl`, without its assertion `loc_thl <= 15`.
unfoldable pub set_loc_thl : Words → Coord → ℕ → Words
set_loc_thl words coord loc_thl =
    set_byte words coord (u8 (insert (get_byte words coord) bmc_px_loc_thl loc_thl))

-- `katherine_px_config_get_loc_thl`
unfoldable pub get_loc_thl : Words → Coord → ℕ
get_loc_thl words coord = extract (get_byte words coord) bmc_px_loc_thl
