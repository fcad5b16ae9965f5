-- ===== src/Base/Bytes.antt =====
-- Little-endian words and their bytes.
use Prim.Native.Nat.{ℕ, zero, suc, ◌+◌, ◌*◌, ◌/◌, ◌%◌, ◌^◌, ◌<◌}
use mathlib.Core.Path.{◌≡◌, refl, ap}
use mathlib.Core.List.{List, [], ◌∷◌}
use native.Mathlib.Omega.{arith}
use native.Mathlib.Nat.{pow-suc}
use libkatherine.Base.Lists.{length}

-- The word that a little-endian host reads from bytes.
abbrev pub le_word : List ℕ → ℕ
le_word [] = 0
le_word (b ∷ bs) = b + 256 * le_word bs

-- The lowest `count` bytes of a value, lowest first.
abbrev pub le_bytes : ℕ → ℕ → List ℕ
le_bytes zero value = []
le_bytes (suc count) value = value % 256 ∷ le_bytes count (value / 256)

pub length-le_bytes : (count value : ℕ) → length (le_bytes count value) ≡ count
length-le_bytes zero value = refl
length-le_bytes (suc count) value = ap suc (length-le_bytes count (value / 256))

pub le_word-le_bytes :
    (count value : ℕ) → value < 256 ^ count → le_word (le_bytes count value) ≡ value
le_word-le_bytes zero value h = omega arith
le_word-le_bytes (suc count) value h =
    omega (arith, pow-suc 256 count, le_word-le_bytes count (value / 256))
