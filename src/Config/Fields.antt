-- ===== src/Config/Fields.antt =====
-- The registers and the times that c/src/config.c computes.
use libkatherine.Base.{ℕ, ◌+◌, ◌*◌, ◌/◌, ◌%◌, ◌^◌, ◌<◌, ◌≡◌, ◌∙◌, arith}
use libkatherine.Base.{bit_and, ◌>>>◌}
use libkatherine.Bits.Split.{bit_and_mask, bit_or_split, zero-bit_or, bit_or-zero}
use libkatherine.Bits.Cut.{bit_and-div}
use libkatherine.Config.{pll_setup}

-- The PLL register of every phase and frequency of the enumerations: bits 1 to 3 are set, the
-- frequency is in bits 4 and 5, the phase in bits 6 to 8, and 0x14 from bit 9 on.
pub pll_setup_lem :
    (phase freq : ℕ)
    → phase < 8
    → freq < 4
    → pll_setup phase freq ≡ 14 + 16 * freq + 64 * phase + 512 * 0x14
unfolding pll_setup
pll_setup_lem phase freq p f = ground (
  arith,
  bit_and_mask 3 phase,
  bit_and_mask 2 freq,
  bit_or_split 6 0 phase 14 0 (omega arith) (omega arith),
  bit_or_split 6 phase 0 14 (freq * 16) (omega arith) (omega arith),
  bit_or_split 4 0 freq 14 0 (omega arith) (omega arith),
  bit_or_split 9 0 20 (phase * 64 + (freq * 16 + 14)) 0 (omega arith) (omega arith),
  zero-bit_or phase,
  zero-bit_or freq,
  bit_or-zero phase,
  bit_or-zero (phase * 64 + (freq * 16 + 14)),
)

-- The two halves of the acquisition time make up the tick count, for every 64-bit count.
pub acq_time_halves :
    (acqt : ℕ)
    → acqt < 2 ^ 64
    → bit_and acqt 0x00000000FFFFFFFF + 2 ^ 32 * (bit_and acqt 0xFFFFFFFF00000000 >>> 32) ≡ acqt
acq_time_halves acqt h =
    let high : bit_and acqt 0xFFFFFFFF00000000 / 2 ^ 32 ≡ acqt / 2 ^ 32 % 2 ^ 32 =
      bit_and-div 32 acqt 0xFFFFFFFF00000000 ∙ bit_and_mask 32 (acqt / 2 ^ 32) in
    omega (arith, bit_and_mask 32 acqt, high)
