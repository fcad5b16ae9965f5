-- ===== src/Config/Balance.antt =====
-- The whole of `katherine_configure` on any link.
use libkatherine.Base.{ℕ, Bool, List, [], ◌∷◌, if◌then◌else◌, ◌≡◌, true}
use libkatherine.Udp.{Udp}
use libkatherine.Session.{Session, ◌>>◌, pure, locked, cmd}
use libkatherine.Session.Balance.{Released, Keeps, Keeps-locked, Keeps-cmd}
use libkatherine.Command.{cmd6_float, cmd6_i64, cmd64_i64, cmd60, cmd64_i64_bytes}
use libkatherine.Command.CmdType
use libkatherine.Command.HwCmdType
use libkatherine.Config.{
  Config, acknowledged, acquisition_setup, set_acq_time, set_no_frames, set_bias,
  set_sensor_register, pll_setup, output_block_config_update, update_sensor_registers, timer_set,
  set_dacs, set_test_pulses, hw_command,
}
use libkatherine.Config.Upload.{set_all_pixel_config}
use libkatherine.Config.Configure.{configure, tpx3_reg_general_config, tpx3_reg_pll_config}
use libkatherine.Config.Script.{hw_bytes}
use libkatherine.Config.Transcript.{float_bytes, setup_bytes, register_bytes, general_word}
use libkatherine.Config.Releases.{
  Keeps-then, Keeps-if, Keeps-pure, Keeps-acknowledged, Keeps-set_all_pixel_config,
  Keeps-set_acq_time, Keeps-set_dacs, Keeps-set_test_pulses,
}

-- An operation and the rest of the configuration.
record Step : Type 0 where
  session : Session
  keeps : Keeps session

abbrev run : List Step → Session → Session
run [] last = last
run (s ∷ ss) last = s.session >> run ss last

Keeps-run : (ss : List Step) (last : Session) → Keeps last → Keeps (run ss last)
Keeps-run [] last k = k
Keeps-run (s ∷ ss) last k = Keeps-then s.session (run ss last) s.keeps (Keeps-run ss last k)

abbrev exchange : List ℕ → Step
exchange bytes = record {
  session = locked (acknowledged (cmd bytes));
  keeps =
      Keeps-locked (acknowledged (cmd bytes)) (Keeps-acknowledged (cmd bytes) (Keeps-cmd bytes));
}

abbrev steps : (ℕ → Bool) → Config → List Step
steps has_memory config =
    record {
      session = set_all_pixel_config has_memory config.pixel_config;
      keeps = Keeps-set_all_pixel_config has_memory config.pixel_config;
    }
    ∷ record { session = set_acq_time config.acq_time; keeps = Keeps-set_acq_time config.acq_time }
    ∷ exchange (cmd64_i64_bytes CmdType.number_of_frames 0 config.no_frames)
    ∷ exchange (float_bytes CmdType.bias_settings config.bias)
    ∷ exchange (setup_bytes config)
    ∷ exchange (register_bytes tpx3_reg_general_config (general_word config))
    ∷ exchange (register_bytes tpx3_reg_pll_config (pll_setup config.phase config.freq))
    ∷ exchange (hw_bytes HwCmdType.output_block_config_update)
    ∷ exchange (hw_bytes HwCmdType.sensor_config_registers_update)
    ∷ exchange (hw_bytes HwCmdType.timer_set)
    ∷ record { session = set_dacs config.dacs; keeps = Keeps-set_dacs config.dacs }
    ∷ []

Keeps-configure : (has_memory : ℕ → Bool) (config : Config) → Keeps (configure has_memory config)
unfolding configure set_no_frames set_bias acquisition_setup set_sensor_register
    output_block_config_update update_sensor_registers timer_set hw_command cmd6_i64 cmd6_float
    cmd64_i64 cmd60
Keeps-configure has_memory config =
    let tp = config.test_pulse_config in
    let last = if tp.enabled then set_test_pulses tp else pure tt in
    Keeps-run (steps has_memory config) last
      (Keeps-if tp.enabled (set_test_pulses tp) (pure tt) (Keeps-set_test_pulses tp) Keeps-pure)

-- On a pinned control socket, whatever the link delivers, loses or refuses, and whether or not
-- memory and locks can be had: when `katherine_configure` returns, with success or with an error, it
-- holds as many locks as before the call, and the session is pinned to the same remote.
pub configure-Released :
    (has_memory : ℕ → Bool) (config : Config) (u : Udp)
    → u.remote_pinned ≡ true
    → Released u (configure has_memory config u).1
configure-Released has_memory config u p = Keeps-configure has_memory config u p
