-- ===== src/Emu/Encoded.antt =====
-- `katherine_configure` of c/src/config.c, taken by the emulated readout of c/src/emu/emulator.c.
use libkatherine.Base.{ℕ, ◌/◌, ◌%◌, ◌^◌, ◌<◌, ◌≡◌, refl, arith}
use libkatherine.Base.{List, [], ◌∷◌, ◌++◌, Bool, true, false, u8, u32}
use libkatherine.Base.{bit_and, ◌>>>◌, if◌then◌else◌}
use mathlib.Core.Path.{subst}
use libkatherine.Bits.Split.{bit_and_mask}
use libkatherine.Bits.Cut.{bit_and-div}
use libkatherine.Command.{packet, cmd60_bytes, cmd64_i64_bytes}
use libkatherine.Command.Words.{general_config_word_lem}
use libkatherine.Command.CmdType
use libkatherine.Command.HwCmdType
use libkatherine.Config.{Config, trigger_byte, test_pulse_bytes, pll_setup}
use libkatherine.Config.Fields.{pll_setup_lem}
use libkatherine.Config.Script.{upload_script, dac_script}
use libkatherine.Config.Transcript.{transcript, setup_bytes, general_word}
use libkatherine.Emu.{Emu, Regs, store}
use libkatherine.Emu.Prng.{load_le32}
use libkatherine.Emu.Feed.{feed, Sets, Sets-append, Sets-none, command}
use libkatherine.Emu.Registers.{
  Sets-acq_time_lsb, Sets-acq_time_msb, Sets-bias, Sets-no_frames, Sets-sensor_reg, Sets-hw_command,
}
use libkatherine.Emu.Parts.{
  Sets-upload, Sets-acquisition_setup, Sets-dacs, Sets-test_pulses, dacs_set, pulses_of,
}

-- One part of a configuration: what it says, and what that makes of the registers.
record Part : Type 0 where
  says : List (List ℕ)
  sets : Regs → Regs
  proof : Sets says sets

abbrev says_of : List Part → List (List ℕ) → List (List ℕ)
says_of [] last = last
says_of (p ∷ ps) last = p.says ++ says_of ps last

abbrev after : List Part → (Regs → Regs) → Regs → Regs
after [] last r = last r
after (p ∷ ps) last r = after ps last (p.sets r)

Sets-parts :
    (ps : List Part) (last : List (List ℕ)) (f : Regs → Regs)
    → Sets last f
    → Sets (says_of ps last) (after ps f)
Sets-parts [] last f s = s
Sets-parts (p ∷ ps) last f s =
    Sets-append p.says (says_of ps last) p.sets (after ps f) p.proof (Sets-parts ps last f s)

hw_part : ℕ → Part
hw_part hw = record {
  says = packet hw 0 0 0 0 CmdType.hw_command_start ∷ [];
  sets = λ r. r;
  proof = Sets-hw_command hw;
}

both : Part → Part → Part
unfolding hw_part
both p q = record {
  says = p.says ++ q.says;
  sets = λ r. q.sets (p.sets r);
  proof = Sets-append p.says q.says p.sets q.sets p.proof q.proof;
}

-- The value of a register from a command.
abbrev at_register : ℕ → ℕ → Regs → Regs
at_register index value r = record r { sensor_reg = store r.sensor_reg index value }

register_part : (index value : ℕ) → index < 12 → Part
register_part index value h = record {
  says = command CmdType.sensor_register_setting index (u32 value) ∷ [];
  sets = at_register index (u32 value % 2 ^ 32);
  proof = Sets-sensor_reg index (u32 value) h;
}

abbrev parts : Config → List Part
parts config =
    let low = u32 (bit_and config.acq_time 0x00000000FFFFFFFF) in
    let high = u32 (bit_and config.acq_time 0xFFFFFFFF00000000 >>> 32) in
    let start = trigger_byte config.start_trigger config.delayed_start in
    let stop = trigger_byte config.stop_trigger false in
    both
      (record {
        says = upload_script config.pixel_config;
        sets = λ r. r;
        proof = Sets-upload config.pixel_config;
      })
      (both (hw_part (u8 HwCmdType.reset_matrix_sequential))
        (hw_part (u8 HwCmdType.load_pixel_register_configuration)))
    ∷ both
        (record {
          says = command CmdType.acquisition_time_lsb 0 low ∷ [];
          sets = λ r. record r { acq_time_lsb = low % 2 ^ 32 };
          proof = Sets-acq_time_lsb low;
        })
        (record {
          says = command CmdType.acquisition_time_msb 0 high ∷ [];
          sets = λ r. record r { acq_time_msb = high % 2 ^ 32 };
          proof = Sets-acq_time_msb high;
        })
    ∷ record {
      says = command CmdType.number_of_frames 0 (u32 config.no_frames) ∷ [];
      sets = λ r. record r { no_frames = u32 config.no_frames % 2 ^ 32 };
      proof = Sets-no_frames (u32 config.no_frames);
    }
    ∷ record {
      says = command CmdType.bias_settings 0 config.bias ∷ [];
      sets = λ r. record r { bias = config.bias % 2 ^ 32 };
      proof = Sets-bias config.bias;
    }
    ∷ record {
      says = packet start stop 0 0 5 CmdType.acquisition_setup ∷ [];
      sets = λ r. record r {
        acq_setup =
            store r.acq_setup 5 (load_le32 (packet start stop 0 0 5 CmdType.acquisition_setup));
      };
      proof = Sets-acquisition_setup start stop;
    }
    ∷ register_part 4 (general_word config) (omega arith)
    ∷ register_part 3 (pll_setup config.phase config.freq) (omega arith)
    ∷ hw_part (u8 HwCmdType.output_block_config_update)
    ∷ hw_part (u8 HwCmdType.sensor_config_registers_update)
    ∷ hw_part (u8 HwCmdType.timer_set)
    ∷ both
        (record {
          says = dac_script 18 0 config.dacs;
          sets = λ r. record r { dac = dacs_set config.dacs r.dac };
          proof = Sets-dacs config.dacs;
        })
        (hw_part (u8 HwCmdType.internal_dac_update))
    ∷ []

says_transcript :
    (has_memory : ℕ → Bool) (config : Config)
    → says_of (parts config) (
        if config.test_pulse_config.enabled
        then test_pulse_bytes config.test_pulse_config ∷ []
        else [])
      ≡ transcript has_memory config
unfolding both hw_part register_part cmd60_bytes cmd64_i64_bytes
says_transcript has_memory config = refl

-- The registers, by what the code makes of the values of a configuration.
abbrev pub encoded : Config → Regs → Regs
encoded config r =
    let words = store r.sensor_reg 4 (general_word config) in
    let set = record r {
      acq_time_lsb = config.acq_time % 2 ^ 32;
      acq_time_msb = config.acq_time / 2 ^ 32 % 2 ^ 32;
      no_frames = config.no_frames % 2 ^ 32;
      bias = config.bias % 2 ^ 32;
      acq_setup = store r.acq_setup 5 (load_le32 (setup_bytes config));
      sensor_reg = store words 3 (pll_setup config.phase config.freq);
      dac = dacs_set config.dacs r.dac;
    } in
    if config.test_pulse_config.enabled
    then pulses_of (test_pulse_bytes config.test_pulse_config) set
    else set

acq_time_low : (t : ℕ) → u32 (bit_and t 0x00000000FFFFFFFF) % 2 ^ 32 ≡ t % 2 ^ 32
acq_time_low t = omega (arith, bit_and_mask 32 t)

acq_time_high : (t : ℕ) → u32 (bit_and t 0xFFFFFFFF00000000 >>> 32) % 2 ^ 32 ≡ t / 2 ^ 32 % 2 ^ 32
acq_time_high t = omega (arith, bit_and-div 32 t 0xFFFFFFFF00000000, bit_and_mask 32 (t / 2 ^ 32))

no_frames_low : (n : ℕ) → u32 n % 2 ^ 32 ≡ n % 2 ^ 32
no_frames_low n = omega arith

general_low : (config : Config) → u32 (general_word config) % 2 ^ 32 ≡ general_word config
general_low config =
    let tp = config.test_pulse_config in
    ground (arith, general_config_word_lem config.polarity_holes config.gray_disable tp.enabled)

pll_low :
    (phase freq : ℕ)
    → phase < 8
    → freq < 4
    → u32 (pll_setup phase freq) % 2 ^ 32 ≡ pll_setup phase freq
pll_low phase freq hp hf = omega (arith, pll_setup_lem phase freq hp hf)

Sets-last :
    (b : Bool) (bytes : List ℕ) (f : Regs → Regs)
    → Sets (bytes ∷ []) f
    → Sets (if b then bytes ∷ [] else []) (λ r. if b then f r else r)
Sets-last true bytes f s = s
Sets-last false bytes f s = Sets-none

-- The registers as the commands set them, with what the casts of the code leave of each value.
cast_away :
    (config : Config)
    → config.phase < 8
    → config.freq < 4
    → after (parts config) (λ r.
      if config.test_pulse_config.enabled
      then pulses_of (test_pulse_bytes config.test_pulse_config) r
      else r)
      ≡ encoded config
unfolding both hw_part register_part
cast_away config hp hf i r =
    let words = store r.sensor_reg 4 (general_low config i) in
    let set = record r {
      acq_time_lsb = acq_time_low config.acq_time i;
      acq_time_msb = acq_time_high config.acq_time i;
      no_frames = no_frames_low config.no_frames i;
      bias = config.bias % 2 ^ 32;
      acq_setup = store r.acq_setup 5 (load_le32 (setup_bytes config));
      sensor_reg = store words 3 (pll_low config.phase config.freq hp hf i);
      dac = dacs_set config.dacs r.dac;
    } in
    if config.test_pulse_config.enabled
    then pulses_of (test_pulse_bytes config.test_pulse_config) set
    else set

-- The datagrams of a configuration, taken by an emulated readout that is in no upload.
pub feed-encoded :
    (has_memory : ℕ → Bool) (config : Config) (emu : Emu)
    → config.phase < 8
    → config.freq < 4
    → emu.px_upload_active ≡ false
    → ((feed (transcript has_memory config) emu).regs ≡ encoded config emu.regs)
      × ((feed (transcript has_memory config) emu).px_upload_active ≡ false)
feed-encoded has_memory config emu hp hf idle =
    let enabled = config.test_pulse_config.enabled in
    let bytes = test_pulse_bytes config.test_pulse_config in
    let last = if enabled then bytes ∷ [] else [] in
    let f : Regs → Regs = λ r. if enabled then pulses_of bytes r else r in
    let sets =
      Sets-parts (parts config) last f
        (Sets-last enabled bytes (pulses_of bytes) (Sets-test_pulses config.test_pulse_config)) in
    let said =
      subst (λ sent. Sets sent (after (parts config) f)) (says_transcript has_memory config) sets in
    subst (Sets (transcript has_memory config)) (cast_away config hp hf) said emu idle
