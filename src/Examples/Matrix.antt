-- ===== src/Examples/Matrix.antt =====
-- The theorems on c/src/px_config.c at concrete inputs.
use libkatherine.Base.{ℕ, ◌/◌, ◌%◌, ◌<◌, ◌≡◌, arith, true, ltb}
use libkatherine.Px.{Coord}
use libkatherine.PxConfig.{Words, load_bpc_data}
use libkatherine.PxConfig.{get_test_bit, get_mask_bit, get_loc_thl}
use libkatherine.PxConfig.Bytes.{IsCoord}
use libkatherine.PxConfig.Fields.{load_bpc_data-fields, reverse4}
use libkatherine.PxConfig.File.{File, Held, LoadsPixel, load_bmc_file, load_bmc_file-LoadsPixel}

abbrev inside : Coord
inside = record { x = 7; y = 200 }

inside-IsCoord : IsCoord inside
inside-IsCoord = record { x_lt = omega arith; y_lt = omega arith }

abbrev blank : Words
blank i = 0x1f

abbrev file : ℕ → ℕ
file i = i % 256

file_byte : (i : ℕ) → file i < 256
file_byte i = omega arith

load_bpc_data-fields_example :
    (get_mask_bit (load_bpc_data file) inside ≡ ltb 0 (file 51207 % 2))
    × (get_test_bit (load_bpc_data file) inside ≡ ltb 0 (file 51207 / 32 % 2))
    × (get_loc_thl (load_bpc_data file) inside ≡ reverse4 (file 51207 / 2))
load_bpc_data-fields_example = load_bpc_data-fields file inside file_byte inside-IsCoord

abbrev on_disk : File
on_disk = record { fopen = 0; has_memory = true; size = 65537; bytes = file }

abbrev nothing : Held
nothing = record { files = 0; buffers = 0 }

load_bmc_file-LoadsPixel_example :
    LoadsPixel on_disk blank nothing inside (file 51207) (load_bmc_file on_disk blank nothing)
load_bmc_file-LoadsPixel_example =
    load_bmc_file-LoadsPixel on_disk blank nothing inside file_byte inside-IsCoord
