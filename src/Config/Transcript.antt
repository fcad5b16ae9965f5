-- ===== src/Config/Transcript.antt =====
-- The whole of `katherine_configure` over a link that answers, and on any link.
use libkatherine.Base.{ℕ, ◌+◌, ◌≡◌, refl, Bool, true, false, List, [], ◌∷◌, ◌++◌, not, ◌&&◌}
use mathlib.Core.Path.{transport}
use libkatherine.Base.{sym, bit_and, ◌>>>◌, if◌then◌else◌}
use libkatherine.Base.{length}
use libkatherine.Udp.{Udp, Incoming, ok}
use libkatherine.Session.Dialogue.{IsReady, replies, push}
use libkatherine.Session.Talk.{listed}
use libkatherine.Session.{Session, pure}
use libkatherine.Session.Talk.{Talks, Talks-pure}
use libkatherine.Command.{
  cmd6_float, cmd6_i64, cmd64_i64, cmd60, general_config_word, packet, cmd64_i64_bytes,
}
use libkatherine.Command.CmdType
use libkatherine.Command.HwCmdType
use libkatherine.Config.{
  Config, hw_command, acquisition_setup, set_acq_time, set_no_frames, set_bias, set_sensor_register,
  pll_setup, output_block_config_update, update_sensor_registers, timer_set, set_dacs,
  set_test_pulses, is_refused, trigger_byte, test_pulse_bytes,
}
use libkatherine.Config.Upload.{set_all_pixel_config}
use libkatherine.Config.Configure.{configure, tpx3_reg_general_config, tpx3_reg_pll_config}
use libkatherine.Config.Script.{
  Line, run, said, answered, Talks-run, exchange, upload_script, hw_bytes, dac_script,
  Talks-set_all_pixel_config, Talks-set_acq_time, Talks-set_dacs, Talks-set_test_pulses,
}

abbrev pub float_bytes : ℕ → ℕ → List ℕ
float_bytes val6 bits =
    packet (bit_and bits 0xff) (bit_and (bits >>> 8) 0xff) (bit_and (bits >>> 16) 0xff)
      (bit_and (bits >>> 24) 0xff) 0 val6

abbrev pub setup_bytes : Config → List ℕ
setup_bytes config =
    packet (trigger_byte config.start_trigger config.delayed_start)
      (trigger_byte config.stop_trigger false) 0 0 0x05 CmdType.acquisition_setup

abbrev pub register_bytes : ℕ → ℕ → List ℕ
register_bytes = cmd64_i64_bytes CmdType.sensor_register_setting

abbrev pub general_word : Config → ℕ
general_word config =
    general_config_word config.polarity_holes config.gray_disable config.test_pulse_config.enabled

-- Everything that a configuration sends but the test pulses: the matrix, the acquisition time, the
-- number of frames, the bias, the triggers, two registers, three updates and the DACs.
abbrev pub lines : (ℕ → Bool) → Config → List Line
lines has_memory config =
    record {
      session = set_all_pixel_config has_memory config.pixel_config;
      says =
          upload_script config.pixel_config
          ++ (hw_bytes HwCmdType.reset_matrix_sequential
              ∷ hw_bytes HwCmdType.load_pixel_register_configuration
              ∷ []);
      answers = 3;
      talks = Talks-set_all_pixel_config has_memory config.pixel_config;
    }
    ∷ record {
      session = set_acq_time config.acq_time;
      says =
          cmd64_i64_bytes CmdType.acquisition_time_lsb 0
            (bit_and config.acq_time 0x00000000FFFFFFFF)
          ∷ cmd64_i64_bytes CmdType.acquisition_time_msb 0
              (bit_and config.acq_time 0xFFFFFFFF00000000 >>> 32)
          ∷ [];
      answers = 2;
      talks = Talks-set_acq_time config.acq_time;
    }
    ∷ exchange (cmd64_i64_bytes CmdType.number_of_frames 0 config.no_frames)
    ∷ exchange (float_bytes CmdType.bias_settings config.bias)
    ∷ exchange (setup_bytes config)
    ∷ exchange (register_bytes tpx3_reg_general_config (general_word config))
    ∷ exchange (register_bytes tpx3_reg_pll_config (pll_setup config.phase config.freq))
    ∷ exchange (hw_bytes HwCmdType.output_block_config_update)
    ∷ exchange (hw_bytes HwCmdType.sensor_config_registers_update)
    ∷ exchange (hw_bytes HwCmdType.timer_set)
    ∷ record {
      session = set_dacs config.dacs;
      says = dac_script 18 0 config.dacs ++ (hw_bytes HwCmdType.internal_dac_update ∷ []);
      answers = 19;
      talks = Talks-set_dacs config.dacs;
    }
    ∷ []

-- The datagrams of a configuration; those of the test pulses come last, and only if they are enabled.
abbrev pub transcript : (ℕ → Bool) → Config → List (List ℕ)
transcript has_memory config = said (lines has_memory config) (
    if config.test_pulse_config.enabled then test_pulse_bytes config.test_pulse_config ∷ [] else [])

abbrev pulses_last : Config → Session
pulses_last config =
    if config.test_pulse_config.enabled then set_test_pulses config.test_pulse_config else pure tt

answers_count :
    (has_memory : ℕ → Bool) (config : Config) (enabled : Bool)
    → answered (lines has_memory config) (if enabled then 1 else 0)
      ≡ 32 + (if enabled then 1 else 0)
answers_count has_memory config true = refl
answers_count has_memory config false = refl

configure-lines :
    (has_memory : ℕ → Bool) (config : Config)
    → configure has_memory config ≡ run (lines has_memory config) (pulses_last config)
unfolding configure set_no_frames set_bias acquisition_setup set_sensor_register
    output_block_config_update update_sensor_registers timer_set hw_command cmd6_i64 cmd6_float
    cmd64_i64 cmd60
configure-lines has_memory config = refl

Talks-pulses_last :
    (config : Config) (enabled : Bool)
    → config.test_pulse_config.enabled ≡ enabled
    → (config.test_pulse_config.enabled
        && not config.test_pulse_config.external
        && is_refused config.test_pulse_config)
      ≡ false
    → Talks
        (if enabled then set_test_pulses config.test_pulse_config else pure tt)
        (if enabled then test_pulse_bytes config.test_pulse_config ∷ [] else [])
        (if enabled then 1 else 0)
Talks-pulses_last config true e h = Talks-set_test_pulses config.test_pulse_config h
Talks-pulses_last config false e h = Talks-pure

pub Talks-configure :
    (has_memory : ℕ → Bool) (config : Config)
    → (config.test_pulse_config.enabled
        && not config.test_pulse_config.external
        && is_refused config.test_pulse_config)
      ≡ false
    → Talks
        (configure has_memory config)
        (transcript has_memory config)
        (32 + (if config.test_pulse_config.enabled then 1 else 0))
Talks-configure has_memory config h =
    let enabled = config.test_pulse_config.enabled in
    let tp = if enabled then test_pulse_bytes config.test_pulse_config ∷ [] else [] in
    transport
      (λ i.
        Talks (sym (configure-lines has_memory config) i) (transcript has_memory config)
          (answers_count has_memory config enabled i))
      (Talks-run (lines has_memory config) (pulses_last config) tp (if enabled then 1 else 0)
        (Talks-pulses_last config enabled refl h))

-- A pinned control socket over a link that takes every datagram, with a mutex that can be had, on
-- which the readout has answered with as many 8-byte acknowledgements as needed, whatever they hold:
-- `katherine_configure`, of test pulses that are not refused, succeeds; it sends exactly the
-- datagrams of `transcript`, in this order, after those sent before; it takes exactly 32
-- acknowledgements, or 33 with test pulses, and leaves the lock count as it was.
pub configure-transcript :
    (has_memory : ℕ → Bool) (config : Config) (acks : ℕ → List ℕ) (rest : List Incoming) (u : Udp)
    → (config.test_pulse_config.enabled
        && not config.test_pulse_config.external
        && is_refused config.test_pulse_config)
      ≡ false
    → ((k : ℕ) → length (acks k) ≡ 8)
    → IsReady u
    → u.inbox
      ≡ replies u.addr_remote
          (listed 0 (32 + (if config.test_pulse_config.enabled then 1 else 0)) acks)
        ++ rest
    → configure has_memory config u ≡ (
      ok tt,
      record u { inbox = rest; sent = push u.addr_remote (transcript has_memory config) u.sent },
    )
configure-transcript has_memory config acks rest u valid whole ready e =
    Talks-configure has_memory config valid 0 acks whole u rest ready e
