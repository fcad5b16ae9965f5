-- ===== src/Config/Asked.antt =====
-- What c/include/katherine/config.h asks of the registers of a readout, by the values of a
-- configuration alone: each field of a register stands at its place, a power of two.
use libkatherine.Base.{ℕ, ◌+◌, ◌*◌, ◌<◌, ◌≡◌, refl, arith, Bool, true, false, not}
use libkatherine.Base.{bit_or, u8, ◌<<◌}
use libkatherine.Bits.Split.{bit_or_split, zero-bit_or, bit_or-zero}
use libkatherine.Command.{of_bool, general_config_word}
use libkatherine.Command.Words.{general_config_word_lem}
use libkatherine.Config.{Config, Trigger, TestPulseConfig, trigger_byte, pulse_flags, pll_setup}
use libkatherine.Config.Fields.{pll_setup_lem}

-- A bit of a register.
abbrev pub bit : Bool → ℕ
bit true = 1
bit false = 0

-- The PLL register: bits 1 to 3 are set, the frequency is in bits 4 and 5, the phase in bits 6 to 8,
-- and 0x14 from bit 9 on.
abbrev pub asked_pll : Config → ℕ
asked_pll config = 14 + 16 * config.freq + 64 * config.phase + 512 * 0x14

-- The general register: bit 0 for electrons, bit 3 for Gray counting, bit 5 for test pulses, and bits
-- 4 and 6 always.
abbrev pub asked_general : Config → ℕ
asked_general config =
    bit (not config.polarity_holes)
    + 8 * bit (not config.gray_disable)
    + 16
    + 32 * bit config.test_pulse_config.enabled
    + 64

-- The byte of a trigger: bit 0 enables it, its channel is in bits 1 to 3, bit 4 is for the falling
-- edge, bit 5 for a delay.
abbrev pub asked_trigger : Trigger → Bool → ℕ
asked_trigger t delayed =
    bit t.enabled + 2 * t.channel + 16 * bit t.use_falling_edge + 32 * bit delayed

-- The flags of test pulses: bit 0 for the digital input, bit 1 for the external source, and bit 2.
abbrev pub asked_flags : TestPulseConfig → ℕ
asked_flags tp = bit tp.digital_only + 2 * bit tp.external + 4

-- The values of the enumerations, and channels that have three bits.
pub record IsAsked (config : Config) : Type 0 where
  pub phase_lt : config.phase < 8
  pub freq_lt : config.freq < 4
  pub start_lt : config.start_trigger.channel < 8
  pub stop_lt : config.stop_trigger.channel < 8

pub pll_setup-asked_pll :
    (config : Config) → IsAsked config → pll_setup config.phase config.freq ≡ asked_pll config
pll_setup-asked_pll config a = pll_setup_lem config.phase config.freq a.phase_lt a.freq_lt

of_bool-bit : (b : Bool) → of_bool b ≡ bit b
of_bool-bit true = refl
of_bool-bit false = refl

pub general_config_word-asked_general :
    (config : Config)
    → general_config_word config.polarity_holes config.gray_disable config.test_pulse_config.enabled
      ≡ asked_general config
general_config_word-asked_general config =
    let tp = config.test_pulse_config in
    omega (
      arith,
      general_config_word_lem config.polarity_holes config.gray_disable tp.enabled,
      of_bool-bit (not config.polarity_holes),
      of_bool-bit (not config.gray_disable),
      of_bool-bit tp.enabled,
    )

bit_lt : (b : Bool) → bit b < 2
bit_lt true = omega arith
bit_lt false = omega arith

-- Bits of a byte that do not overlap.
or_fields :
    (e c f d : ℕ)
    → e < 2
    → c < 8
    → f < 2
    → bit_or (bit_or (u8 (bit_or (bit_or 0 e) (c * 2))) (f * 16)) (d * 32)
      ≡ e + 2 * c + 16 * f + 32 * d
or_fields e c f d he hc hf = ground (
  arith,
  zero-bit_or e,
  bit_or_split 1 0 c e 0 (omega arith) (omega arith),
  bit_or-zero e,
  zero-bit_or c,
  bit_or_split 4 0 f (e + 2 * c) 0 (omega arith) (omega arith),
  bit_or-zero (e + 2 * c),
  zero-bit_or f,
  bit_or_split 5 0 d (e + 2 * c + 16 * f) 0 (omega arith) (omega arith),
  bit_or-zero (e + 2 * c + 16 * f),
  zero-bit_or d,
)

pub trigger_byte-asked_trigger :
    (t : Trigger) (delayed : Bool)
    → t.channel < 8
    → trigger_byte t delayed ≡ asked_trigger t delayed
unfolding trigger_byte
trigger_byte-asked_trigger t delayed h =
    rw (of_bool-bit t.enabled, of_bool-bit t.use_falling_edge, of_bool-bit delayed)
      (or_fields (bit t.enabled) t.channel (bit t.use_falling_edge) (bit delayed) (bit_lt t.enabled)
        h (bit_lt t.use_falling_edge))

flags_of :
    (digital external : Bool)
    → bit_or (bit_or (bit_or 0 (of_bool digital)) (of_bool external << 1)) (1 << 2)
      ≡ bit digital + 2 * bit external + 4
flags_of true true = refl
flags_of true false = refl
flags_of false true = refl
flags_of false false = refl

pub pulse_flags-asked_flags : (tp : TestPulseConfig) → pulse_flags tp ≡ asked_flags tp
unfolding pulse_flags
pulse_flags-asked_flags tp = flags_of tp.digital_only tp.external
