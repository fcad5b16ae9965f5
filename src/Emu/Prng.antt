-- ===== src/Emu/Prng.antt =====
-- c/src/emu/emu.h: the generator of pseudo-random numbers, and the little-endian fields.
use libkatherine.Base.{
  ℕ, ◌+◌, ◌*◌, ◌%◌, ◌==◌, if◌then◌else◌, u64, u32, bit_xor, bit_or, ◌>>>◌, ◌<<◌,
}
use libkatherine.Base.{List, get_or}

-- `katherine_emu_prng_next`: the number, and the state of the generator after it.
unfoldable pub prng_next : ℕ → ℕ × ℕ
prng_next state =
    let state = u64 (state + 0x9E3779B97F4A7C15) in
    let z = u64 (bit_xor state (state >>> 30) * 0xBF58476D1CE4E5B9) in
    let z = u64 (bit_xor z (z >>> 27) * 0x94D049BB133111EB) in (bit_xor z (z >>> 31), state)

-- `katherine_emu_prng_below`; a bound of 0 draws nothing.
unfoldable pub prng_below : ℕ → ℕ → ℕ × ℕ
unfolding prng_next
prng_below state bound =
    let (z, state') = prng_next state in if bound == 0 then (0, state) else (z % bound, state')

-- `katherine_emu_load_le32`
unfoldable pub load_le32 : List ℕ → ℕ
load_le32 src =
    let w = bit_or (get_or src 0 0) (u32 (get_or src 1 0 << 8)) in
    let w = bit_or w (u32 (get_or src 2 0 << 16)) in bit_or w (u32 (get_or src 3 0 << 24))
