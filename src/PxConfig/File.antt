-- ===== src/PxConfig/File.antt =====
-- c/src/px_config.c: loading the matrix from a file. What the operating system makes of the file is
-- a parameter: the error of fopen(), whether malloc() has room for the buffer, and the bytes that
-- fread() yields. `open` counts the files and buffers that are held.
use libkatherine.Base.{ap, ◌∙◌, zero, suc}
use libkatherine.Base.{ℕ, ◌+◌, ◌-◌, ◌*◌, ◌≤◌, ◌<◌, ◌≡◌, ◌⊎◌, inl, inr, refl, arith, ltb, ◌==◌, not}
use libkatherine.Base.{Bool, true, if◌then◌else◌, min, enomem, eio}
use libkatherine.Px.{Coord}
use libkatherine.PxConfig.{Words, get_byte, from_bpc, load_bmc_data, load_bpc_data}
use libkatherine.PxConfig.Bytes.{IsCoord}
use libkatherine.PxConfig.Load.{get_byte-load_bmc_data, get_byte-load_bpc_data}

pub record File : Type 0 where
  pub fopen : ℕ
  pub has_memory : Bool
  pub size : ℕ
  pub bytes : ℕ → ℕ

pub record Held : Type 0 where
  pub files : ℕ
  pub buffers : ℕ

-- The result code, the matrix, and what is held.
abbrev pub Loaded : Type 0
Loaded = ℕ × Words × Held

-- `sizeof(katherine_bmc_t)`, and that of `katherine_bpc_t`.
abbrev pub expected_size : ℕ
expected_size = 65536

abbrev opened : Held → Held
opened h = record h { files = h.files + 1 }

-- `fclose`
abbrev closed : Held → Held
closed h = record h { files = h.files - 1 }

abbrev allocated : Held → Held
allocated h = record h { buffers = h.buffers + 1 }

-- `free`
abbrev freed : Held → Held
freed h = record h { buffers = h.buffers - 1 }

-- `katherine_px_config_load_bmc_file`
unfoldable pub load_bmc_file : File → Words → Held → Loaded
load_bmc_file file words h =
    let actual_size = min expected_size file.size in
    if ltb 0 file.fopen
    then (file.fopen, words, h)
    else if not file.has_memory
    then (enomem, words, closed (opened h))
    else if not (expected_size == actual_size)
    then (eio, words, closed (freed (allocated (opened h))))
    else (0, load_bmc_data file.bytes, closed (freed (allocated (opened h))))

-- `katherine_px_config_load_bpc_file`
unfoldable pub load_bpc_file : File → Words → Held → Loaded
load_bpc_file file words h =
    let actual_size = min expected_size file.size in
    if ltb 0 file.fopen
    then (file.fopen, words, h)
    else if not file.has_memory
    then (enomem, words, closed (opened h))
    else if not (expected_size == actual_size)
    then (eio, words, closed (freed (allocated (opened h))))
    else (0, load_bpc_data file.bytes, closed (freed (allocated (opened h))))

-- A file that can be opened, buffered and read in full.
pub record IsReadable (file : File) : Type 0 where
  pub opens : file.fopen ≡ 0
  pub fits : file.has_memory ≡ true
  pub whole : 65536 ≤ file.size

-- What a loader promises: a success is that of a readable file, and a failure keeps the matrix.
pub record IsLoaded (file : File) (words new : Words) (h : Held) (r : Loaded) : Type 0 where
  pub success : r.0 ≡ 0 → IsReadable file × (r.1 ≡ new)
  pub readable : IsReadable file → r.0 ≡ 0
  pub failure : 0 < r.0 → r.1 ≡ words
  pub held : r.2 ≡ h

load_bmc_file-IsLoaded :
    (file : File) (words : Words) (h : Held)
    → IsLoaded file words (load_bmc_data file.bytes) h (load_bmc_file file words h)
unfolding load_bmc_file
load_bmc_file-IsLoaded file words h = ground arith

load_bpc_file-IsLoaded :
    (file : File) (words : Words) (h : Held)
    → IsLoaded file words (load_bpc_data file.bytes) h (load_bpc_file file words h)
unfolding load_bpc_file
load_bpc_file-IsLoaded file words h = ground arith

-- A file is loaded, and the pixel has its value, or it is not and the matrix is what it was; either
-- way nothing stays open.
abbrev pub LoadsPixel : File → Words → Held → Coord → ℕ → Loaded → Type 0
LoadsPixel file words h d value r =
    (((r.0 ≡ 0) × IsReadable file × (get_byte r.1 d ≡ value))
      ⊎ ((0 < r.0) × (IsReadable file → ⊥) × (r.1 ≡ words)))
    × (r.2 ≡ h)

zero_or_more : (n : ℕ) → (n ≡ 0) ⊎ (0 < n)
zero_or_more zero = inl refl
zero_or_more (suc n) = inr (omega arith)

loads_pixel :
    (file : File) (words new : Words) (h : Held) (d : Coord) (value : ℕ) (r : Loaded)
    → get_byte new d ≡ value
    → IsLoaded file words new h r
    → LoadsPixel file words h d value r
loads_pixel file words new h d value r e p = elim (zero_or_more r.0) [
  | inl z ↦ (inl (z, (p.success z).0, ap (λ w. get_byte w d) (p.success z).1 ∙ e), p.held)
  | inr pos ↦ (inr (pos, λ q. absurd (omega (arith, p.readable q, pos)), p.failure pos), p.held)
]

-- Loading a matrix from a BMC file either succeeds, exactly where the file can be opened, there is
-- memory for it, and it has 65536 bytes at least, and then the configuration byte of every pixel is
-- the byte that the file holds for it, row by row; or it reports an error and leaves the matrix as
-- it was. The file is closed and the buffer freed on every path. The pixel is one of the matrix, and
-- what the file holds are bytes.
pub load_bmc_file-LoadsPixel :
    (file : File) (words : Words) (h : Held) (d : Coord)
    → ((i : ℕ) → file.bytes i < 256)
    → IsCoord d
    → LoadsPixel file words h d (file.bytes (256 * d.y + d.x)) (load_bmc_file file words h)
load_bmc_file-LoadsPixel file words h d hs hd =
    loads_pixel file words (load_bmc_data file.bytes) h d _ (load_bmc_file file words h)
      (get_byte-load_bmc_data file.bytes d hs hd) (load_bmc_file-IsLoaded file words h)

-- The same of a BPC file, of which each byte is converted.
pub load_bpc_file-LoadsPixel :
    (file : File) (words : Words) (h : Held) (d : Coord)
    → IsCoord d
    → LoadsPixel file words h d
        (from_bpc (file.bytes (256 * d.y + d.x)))
        (load_bpc_file file words h)
load_bpc_file-LoadsPixel file words h d hd =
    loads_pixel file words (load_bpc_data file.bytes) h d _ (load_bpc_file file words h)
      (get_byte-load_bpc_data file.bytes d hd) (load_bpc_file-IsLoaded file words h)
