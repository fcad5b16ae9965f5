-- ===== src/Emu/Configured.antt =====
-- What `katherine_configure` of c/src/config.c leaves in the registers of the emulated readout of
-- c/src/emu/emulator.c, by the values of the configuration alone.
use libkatherine.Base.{ℕ, ◌+◌, ◌-◌, ◌*◌, ◌/◌, ◌%◌, ◌^◌, ◌<◌, ◌≡◌, refl, arith, ◌∙◌}
use libkatherine.Base.{Bool, true, false, u16, if◌then◌else◌, bit_and, bit_or}
use libkatherine.Base.{◌<<◌, ◌>>>◌}
use libkatherine.Bits.Split.{bit_and_mask, bit_or_split, bit_or-zero, zero-bit_or}
use libkatherine.Config.{Config, TestPulseConfig, Trigger, test_pulse_bytes}
use libkatherine.Config.Asked.{
  IsAsked, asked_pll, asked_general, asked_trigger, asked_flags, bit, pll_setup-asked_pll,
  general_config_word-asked_general, trigger_byte-asked_trigger, pulse_flags-asked_flags,
}
use libkatherine.Config.Transcript.{transcript, setup_bytes}
use libkatherine.Emu.{Emu, Regs, store}
use libkatherine.Emu.Prng.{load_le32}
use libkatherine.Emu.Feed.{feed, load_le32_lem}
use libkatherine.Emu.Parts.{dacs_set, pulses_of}
use libkatherine.Emu.Encoded.{encoded, feed-encoded}

-- The registers of enabled test pulses; those of the internal generator are 0 where the source is
-- external. The period is rounded down to 64 k + 1, and k is what is kept.
abbrev pub pulses_asked : TestPulseConfig → Regs → Regs
pulses_asked tp r = record r {
  tp_count = if tp.external then 0 else tp.count % 2 ^ 16;
  tp_period_code = if tp.external then 0 else (tp.period - 1) / 64 % 2 ^ 8;
  tp_phase = if tp.external then 0 else tp.phase;
  tp_flags = asked_flags tp;
}

-- The registers that a configuration asks for.
abbrev pub configured : Config → Regs → Regs
configured config r =
    let start = asked_trigger config.start_trigger config.delayed_start in
    let stop = asked_trigger config.stop_trigger false in
    let set = record r {
      acq_time_lsb = config.acq_time % 2 ^ 32;
      acq_time_msb = config.acq_time / 2 ^ 32 % 2 ^ 32;
      no_frames = config.no_frames % 2 ^ 32;
      bias = config.bias % 2 ^ 32;
      acq_setup = store r.acq_setup 5 (start + 2 ^ 8 * stop);
      sensor_reg = store (store r.sensor_reg 4 (asked_general config)) 3 (asked_pll config);
      dac = dacs_set config.dacs r.dac;
    } in
    if config.test_pulse_config.enabled then pulses_asked config.test_pulse_config set else set

bit_lt : (b : Bool) → bit b < 2
bit_lt true = omega arith
bit_lt false = omega arith

asked_trigger_lt : (t : Trigger) (delayed : Bool) → t.channel < 8 → asked_trigger t delayed < 256
asked_trigger_lt t delayed h =
    omega (arith, bit_lt t.enabled, bit_lt t.use_falling_edge, bit_lt delayed)

setup_word :
    (config : Config)
    → IsAsked config
    → load_le32 (setup_bytes config)
      ≡ asked_trigger config.start_trigger config.delayed_start
        + 2 ^ 8 * asked_trigger config.stop_trigger false
setup_word config a =
    let start = trigger_byte-asked_trigger config.start_trigger config.delayed_start a.start_lt in
    let stop = trigger_byte-asked_trigger config.stop_trigger false a.stop_lt in
    let start_lt = asked_trigger_lt config.start_trigger config.delayed_start a.start_lt in
    let stop_lt = asked_trigger_lt config.stop_trigger false a.stop_lt in
    rw (start, stop)
      (load_le32_lem (asked_trigger config.start_trigger config.delayed_start)
          (asked_trigger config.stop_trigger false) 0 0 _ start_lt stop_lt (omega arith)
          (omega arith)
        ∙ omega arith)

count_word :
    (count : ℕ)
    → u16 (bit_or (bit_and count 0xFF) (bit_and (count >>> 8) 0xFF << 8)) ≡ count % 2 ^ 16
count_word count = ground (
  arith,
  bit_and_mask 8 count,
  bit_and_mask 8 (count / 2 ^ 8),
  bit_or_split 8 0 (count / 2 ^ 8 % 2 ^ 8) (count % 2 ^ 8) 0 (omega arith) (omega arith),
  zero-bit_or (count / 2 ^ 8 % 2 ^ 8),
  bit_or-zero (count % 2 ^ 8),
)

pulses_lem :
    (tp : TestPulseConfig) (enabled : Bool) (r : Regs)
    → tp.enabled ≡ enabled
    → (if enabled then pulses_of (test_pulse_bytes tp) r else r)
      ≡ (if enabled then pulses_asked tp r else r)
unfolding test_pulse_bytes
pulses_lem tp false r e = refl
pulses_lem tp true r e = ground (arith, e, count_word tp.count, pulse_flags-asked_flags tp)

-- What the code makes of the values is what they ask for.
encoded-configured :
    (config : Config) (r : Regs) → IsAsked config → encoded config r ≡ configured config r
encoded-configured config r a =
    let tp = config.test_pulse_config in
    let set : ℕ → ℕ → ℕ → Regs = λ (setup general pll : ℕ). record r {
      acq_time_lsb = config.acq_time % 2 ^ 32;
      acq_time_msb = config.acq_time / 2 ^ 32 % 2 ^ 32;
      no_frames = config.no_frames % 2 ^ 32;
      bias = config.bias % 2 ^ 32;
      acq_setup = store r.acq_setup 5 setup;
      sensor_reg = store (store r.sensor_reg 4 general) 3 pll;
      dac = dacs_set config.dacs r.dac;
    } in
    let setup = setup_word config a in
    let general = general_config_word-asked_general config in
    let pll = pll_setup-asked_pll config a in
    let done : encoded config r
        ≡ (if tp.enabled then pulses_of (test_pulse_bytes tp) (set _ _ _) else set _ _ _) =
      λ i.
        let after = set (setup i) (general i) (pll i) in
        if tp.enabled then pulses_of (test_pulse_bytes tp) after else after in
    done ∙ pulses_lem tp tp.enabled (set _ _ _) refl

pub feed-transcript :
    (has_memory : ℕ → Bool) (config : Config) (emu : Emu)
    → IsAsked config
    → emu.px_upload_active ≡ false
    → ((feed (transcript has_memory config) emu).regs ≡ configured config emu.regs)
      × ((feed (transcript has_memory config) emu).px_upload_active ≡ false)
feed-transcript has_memory config emu a idle =
    let (regs, ended) = feed-encoded has_memory config emu a.phase_lt a.freq_lt idle in
    (regs ∙ encoded-configured config emu.regs a, ended)
