-- ===== src/Config/Configure.antt =====
-- c/src/config.c: `katherine_configure`, the whole configuration, in its order.
use libkatherine.Base.{ℕ, Bool, if◌then◌else◌}
use libkatherine.Session.{Session, ◌>>◌, pure}
use libkatherine.Command.{general_config_word}
use libkatherine.Config.{Config, acquisition_setup, set_acq_time, set_no_frames, set_bias}
use libkatherine.Config.{set_sensor_register, pll_setup, output_block_config_update}
use libkatherine.Config.{update_sensor_registers, timer_set, set_dacs, set_test_pulses}
use libkatherine.Config.Upload.{set_all_pixel_config}

-- `katherine_tpx3_reg_t`, as far as it is used.
abbrev pub tpx3_reg_general_config : ℕ
tpx3_reg_general_config = 4

abbrev pub tpx3_reg_pll_config : ℕ
tpx3_reg_pll_config = 3

-- `katherine_configure`
unfoldable pub configure : (ℕ → Bool) → Config → Session
configure has_memory config =
    let general =
      general_config_word config.polarity_holes config.gray_disable
        config.test_pulse_config.enabled in
    let test_pulses =
      if config.test_pulse_config.enabled
      then set_test_pulses config.test_pulse_config
      else pure tt in
    set_all_pixel_config has_memory config.pixel_config
    >> (set_acq_time config.acq_time
        >> (set_no_frames config.no_frames
            >> (set_bias config.bias_id config.bias
                >> (acquisition_setup config.start_trigger config.delayed_start config.stop_trigger
                    >> (set_sensor_register tpx3_reg_general_config general
                        >> (set_sensor_register tpx3_reg_pll_config
                              (pll_setup config.phase config.freq)
                            >> (output_block_config_update
                                >> (update_sensor_registers
                                    >> (timer_set >> (set_dacs config.dacs >> test_pulses))))))))))
