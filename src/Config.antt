-- ===== src/Config.antt =====
-- c/src/config.c and c/include/katherine/config.h: the configuration of the detector and the
-- commands that set it, each one locked exchange on the control socket. An enum is its number. The
-- acquisition time is given by the 64-bit pattern of the tick count `(int64_t) (ns / 10.)`, the bias
-- by that of its float. The pauses of msleep() have no effect on the session and are left out.
pub mod Upload
pub mod Configure
pub mod Releases
pub mod Script
pub mod Balance
pub mod Pulses
pub mod Fields
pub mod Transcript
pub mod Asked
pub mod Protocol
use libkatherine.Base.{
  ℕ, zero, suc, ◌+◌, ◌-◌, ◌*◌, ◌/◌, ◌==◌, ltb, if◌then◌else◌, u8, u16, bit_and, bit_or,
}
use libkatherine.Base.{◌<<◌, ◌>>>◌, Bool, true, false, List, [], ◌∷◌, einval, ◌||◌, ◌&&◌, not}
use libkatherine.Udp.{Udp, err}
use libkatherine.Session.{Session, ◌>>=◌, ◌>>◌, pure, fail, locked, cmd, wait_ack, wait_ack_retry}
use libkatherine.Command.{packet, cmd60, cmd64_i64, cmd6_i64, cmd6_float, of_bool}
use libkatherine.Command.{general_config_word}
use libkatherine.Command.CmdType
use libkatherine.Command.HwCmdType
use libkatherine.PxConfig.{Words}

-- `katherine_trigger_t`
pub record Trigger : Type 0 where
  pub enabled : Bool
  pub channel : ℕ
  pub use_falling_edge : Bool

-- `katherine_test_pulse_config_t`; count and period are uint16_t, phase is a uint8_t.
pub record TestPulseConfig : Type 0 where
  pub enabled : Bool
  pub digital_only : Bool
  pub external : Bool
  pub count : ℕ
  pub period : ℕ
  pub phase : ℕ

-- `katherine_config_t`
pub record Config : Type 0 where
  pub pixel_config : Words
  pub bias_id : ℕ
  pub acq_time : ℕ
  pub no_frames : ℕ
  pub bias : ℕ
  pub start_trigger : Trigger
  pub delayed_start : Bool
  pub stop_trigger : Trigger
  pub gray_disable : Bool
  pub polarity_holes : Bool
  pub phase : ℕ
  pub freq : ℕ
  pub dacs : ℕ → ℕ
  pub test_pulse_config : TestPulseConfig

-- A command that the readout acknowledges.
unfoldable pub acknowledged : Session → Session
acknowledged command = command >> wait_ack

-- `katherine_set_acq_time`
unfoldable pub set_acq_time : ℕ → Session
unfolding acknowledged
set_acq_time acqt =
    let lsb = bit_and acqt 0x00000000FFFFFFFF in
    let msb = bit_and acqt 0xFFFFFFFF00000000 >>> 32 in
    locked (
      acknowledged (cmd6_i64 CmdType.acquisition_time_lsb lsb)
      >> acknowledged (cmd6_i64 CmdType.acquisition_time_msb msb))

unfoldable pub acq_mode_bytes : ℕ → Bool → List ℕ
acq_mode_bytes acq_mode fast_vco_enabled =
    packet (bit_or (u8 acq_mode) (of_bool fast_vco_enabled << 7)) 0 0 0 0
      CmdType.acquisition_mode_setting

-- `katherine_set_acq_mode`
unfoldable pub set_acq_mode : ℕ → Bool → Session
unfolding acknowledged
set_acq_mode acq_mode fast_vco_enabled =
    locked (acknowledged (cmd (acq_mode_bytes acq_mode fast_vco_enabled)))

-- `katherine_set_bias`; the index is discarded.
unfoldable pub set_bias : ℕ → ℕ → Session
unfolding acknowledged
set_bias bias_id bias_value = locked (acknowledged (cmd6_float CmdType.bias_settings bias_value))

-- `katherine_set_no_frames`
unfoldable pub set_no_frames : ℕ → Session
unfolding acknowledged
set_no_frames no_frames = locked (acknowledged (cmd6_i64 CmdType.number_of_frames no_frames))

-- `katherine_set_seq_readout_start`, which is not acknowledged.
unfoldable pub set_seq_readout_start : ℕ → Session
set_seq_readout_start arg = locked (cmd6_i64 CmdType.seq_readout_start arg)

-- The byte of a trigger; `delayed` is bit 5 of the byte of the start trigger.
unfoldable pub trigger_byte : Trigger → Bool → ℕ
trigger_byte t delayed =
    let b = bit_or 0 (of_bool t.enabled) in
    let b = u8 (bit_or b (t.channel << 1)) in
    let b = bit_or b (of_bool t.use_falling_edge << 4) in bit_or b (of_bool delayed << 5)

-- `katherine_acquisition_setup`
unfoldable pub acquisition_setup : Trigger → Bool → Trigger → Session
unfolding acknowledged
acquisition_setup start_trigger delayed_start end_trigger = locked (
    acknowledged (
      cmd (
        packet (trigger_byte start_trigger delayed_start) (trigger_byte end_trigger false) 0 0 0x05
          CmdType.acquisition_setup)))

-- The parameters that `katherine_set_test_pulses` refuses.
unfoldable pub is_refused : TestPulseConfig → Bool
is_refused tp = (tp.count == 0) || ltb tp.period 65 || ltb 16321 tp.period || ltb 15 tp.phase

-- `cmd[4]` of an enabled test pulse command.
unfoldable pub pulse_flags : TestPulseConfig → ℕ
pulse_flags tp =
    let b = bit_or 0 (of_bool tp.digital_only) in
    let b = bit_or b (of_bool tp.external << 1) in bit_or b (1 << 2)

unfoldable pub test_pulse_bytes : TestPulseConfig → List ℕ
unfolding pulse_flags
test_pulse_bytes tp =
    if tp.enabled
    then if tp.external
      then packet 0 0 0 0 (pulse_flags tp) CmdType.test_pulse_setting
      else packet (bit_and tp.count 0xFF) (bit_and (tp.count >>> 8) 0xFF)
          (u8 ((tp.period - 1) / 64)) tp.phase (pulse_flags tp) CmdType.test_pulse_setting
    else packet 0 0 0 0 0 CmdType.test_pulse_setting

-- `katherine_set_test_pulses`
unfoldable pub set_test_pulses : TestPulseConfig → Session
unfolding is_refused test_pulse_bytes
set_test_pulses tp =
    if tp.enabled && not tp.external && is_refused tp
    then fail einval
    else locked (cmd (test_pulse_bytes tp) >> wait_ack_retry 50)

-- `katherine_set_sensor_register`
unfoldable pub set_sensor_register : ℕ → ℕ → Session
unfolding acknowledged
set_sensor_register reg_idx reg_value =
    locked (acknowledged (cmd64_i64 CmdType.sensor_register_setting reg_idx reg_value))

-- A hardware command under the mutex.
unfoldable pub hw_command : ℕ → Session
unfolding acknowledged
hw_command hw = acknowledged (cmd60 CmdType.hw_command_start hw)

-- `katherine_update_sensor_registers`
unfoldable pub update_sensor_registers : Session
unfolding hw_command
update_sensor_registers = locked (hw_command HwCmdType.sensor_config_registers_update)

-- `katherine_output_block_config_update`
unfoldable pub output_block_config_update : Session
unfolding hw_command
output_block_config_update = locked (hw_command HwCmdType.output_block_config_update)

-- `katherine_timer_set`
unfoldable pub timer_set : Session
unfolding hw_command
timer_set = locked (hw_command HwCmdType.timer_set)

-- The loop of `katherine_set_dacs` with `left` rounds to go, at DAC `i`.
unfoldable pub dacs_loop : ℕ → ℕ → (ℕ → ℕ) → Session
unfolding acknowledged
dacs_loop zero i array = pure tt
dacs_loop (suc left) i array =
    acknowledged (cmd64_i64 CmdType.internal_dac_settings i (array i))
    >> dacs_loop left (i + 1) array

-- `katherine_set_dacs`
unfoldable pub set_dacs : (ℕ → ℕ) → Session
unfolding dacs_loop hw_command
set_dacs array = locked (dacs_loop 18 0 array >> hw_command HwCmdType.internal_dac_update)

-- The value of the PLL register in `katherine_configure`.
unfoldable pub pll_setup : ℕ → ℕ → ℕ
pll_setup phase freq =
    let word = bit_or 0xE (bit_and phase 0x7 << 6) in
    let word = bit_or word (bit_and freq 0x3 << 4) in bit_or word (0x14 << 9)
