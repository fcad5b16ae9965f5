-- ===== src/PxConfig/Load.antt =====
-- Loading the matrix: what every pixel holds after `katherine_px_config_load_bmc_data` and
-- `katherine_px_config_load_bpc_data`.
use native.Mathlib.Nat.{one-le-pow}
use libkatherine.Base.{ℕ, zero, suc, ◌+◌, ◌-◌, ◌*◌, ◌/◌, ◌%◌, ◌≤◌, ◌<◌, bit_or}
use libkatherine.Base.{◌≡◌, refl, ◌∙◌, arith, ◌==◌, ltb, leb, if◌then◌else◌, ◌&&◌}
use libkatherine.Base.{Bool-cases, ==_iff, inl, inr}
use libkatherine.Bits.Split.{zero-bit_or}
use libkatherine.Px.{Coord}
use libkatherine.PxConfig.{Words, or_byte, get_byte, load_bmc_loop, load_bmc_data}
use libkatherine.PxConfig.{from_bpc, load_bpc_loop, load_bpc_data}
use libkatherine.PxConfig.Bytes.{byte_of-or_placed, IsCoord, same_coord, same_place}
use libkatherine.PxConfig.Bytes.{word_index, byte_index}

get_byte-or_byte :
    (dest : Words) (c d : Coord) (b : ℕ)
    → IsCoord c
    → IsCoord d
    → b < 256
    → get_byte (or_byte dest c.x (255 - c.y) b) d
      ≡ (if same_coord c d then bit_or (get_byte dest d) b else get_byte dest d)
unfolding get_byte or_byte
get_byte-or_byte dest c d b hc hd hb =
    rw (← same_place c d hc hd) (elim (Bool-cases (word_index c == word_index d)) [
      | inl e ↦
          rw (e, (==_iff (word_index c) (word_index d)).0 e)
            (byte_of-or_placed (dest (word_index d)) b (byte_index c) (byte_index d) hb
              (omega arith) (omega arith))
      | inr e ↦ rw e
    ])

-- The position of a pixel in the files of both formats: row by row, from row 0.
abbrev pub file_index : Coord → ℕ
file_index c = 256 * c.y + c.x

abbrev coord_at : ℕ → Coord
coord_at i = record { x = i % 256; y = i / 256 }

same_coord-at : (i : ℕ) (d : Coord) → IsCoord d → same_coord (coord_at i) d ≡ (i == file_index d)
unfolding same_coord
same_coord-at i d h = ground arith

abbrev IsBytes : (ℕ → ℕ) → Type 0
IsBytes src = (i : ℕ) → src i < 256

-- One round of the loader at index `i`.
load_round :
    (i : ℕ) (src : ℕ → ℕ) (dest : Words) (d : Coord)
    → i < 65536
    → IsBytes src
    → IsCoord d
    → get_byte (or_byte dest (i % 256) (255 - i / 256) (src i)) d
      ≡ (if i == file_index d then bit_or (get_byte dest d) (src i) else get_byte dest d)
load_round i src dest d hi hs hd =
    get_byte-or_byte dest (coord_at i) d (src i) (record { x_lt = omega arith; y_lt = omega arith })
      hd (hs i)
    ∙ rw (same_coord-at i d hd)

load_bmc_loop_lem :
    (left i : ℕ) (src : ℕ → ℕ) (dest : Words) (d : Coord)
    → i + left ≤ 65536
    → IsBytes src
    → IsCoord d
    → get_byte (load_bmc_loop left i src dest) d ≡ (
        if leb i (file_index d) && ltb (file_index d) (i + left)
        then bit_or (get_byte dest d) (src (file_index d))
        else get_byte dest d)
unfolding load_bmc_loop
load_bmc_loop_lem zero i src dest d h hs hd = ground arith
load_bmc_loop_lem (suc left) i src dest d h hs hd = ground (
  arith,
  load_round i src dest d (omega arith) hs hd,
  load_bmc_loop_lem left (i + 1) src (or_byte dest (i % 256) (255 - i / 256) (src i)) d
      (omega arith) hs hd,
)

get_byte-zero : (d : Coord) → get_byte (λ _. 0) d ≡ 0
unfolding get_byte
get_byte-zero d = omega (arith, one-le-pow (8 * (3 - byte_index d)) 2)

-- After a matrix has been loaded from BMC data (bytes below 256), the configuration byte of every
-- pixel is the byte that the file holds for it, row by row: nothing of it depends on the other
-- pixels.
pub get_byte-load_bmc_data :
    (src : ℕ → ℕ) (d : Coord)
    → ((i : ℕ) → src i < 256)
    → IsCoord d
    → get_byte (load_bmc_data src) d ≡ src (256 * d.y + d.x)
unfolding load_bmc_data
get_byte-load_bmc_data src d hs hd =
    load_bmc_loop_lem 65536 0 src (λ _. 0) d (omega arith) hs hd
    ∙ ground (arith, get_byte-zero d, zero-bit_or (src (file_index d)))

-- The BPC loader is the BMC loader on permuted bytes.
load_bpc_loop_lem :
    (left i : ℕ) (src : ℕ → ℕ) (dest : Words)
    → load_bpc_loop left i src dest ≡ load_bmc_loop left i (λ k. from_bpc (src k)) dest
unfolding load_bpc_loop load_bmc_loop
load_bpc_loop_lem zero i src dest = refl
load_bpc_loop_lem (suc left) i src dest =
    load_bpc_loop_lem left (i + 1) src (or_byte dest (i % 256) (255 - i / 256) (from_bpc (src i)))

from_bpc-lt : (b : ℕ) → from_bpc b < 256
unfolding from_bpc
from_bpc-lt b = omega arith

-- After a matrix has been loaded from BPC data, the configuration byte of every pixel is the
-- converted byte of that pixel.
pub get_byte-load_bpc_data :
    (src : ℕ → ℕ) (d : Coord)
    → IsCoord d
    → get_byte (load_bpc_data src) d ≡ from_bpc (src (256 * d.y + d.x))
unfolding load_bpc_data
get_byte-load_bpc_data src d hd = rw (load_bpc_loop_lem 65536 0 src (λ _. 0)) (
    load_bmc_loop_lem 65536 0 (λ k. from_bpc (src k)) (λ _. 0) d (omega arith)
      (λ k. from_bpc-lt (src k)) hd
    ∙ ground (arith, get_byte-zero d, zero-bit_or (from_bpc (src (file_index d)))))
