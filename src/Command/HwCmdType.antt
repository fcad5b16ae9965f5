-- ===== src/Command/HwCmdType.antt =====
-- c/src/command_interface.h: `katherine_hw_cmd_type_t`, as far as the commands are sent.
use libkatherine.Base.{ℕ}

abbrev pub sensor_config_registers_update : ℕ
sensor_config_registers_update = 0

abbrev pub internal_dac_update : ℕ
internal_dac_update = 1

abbrev pub timer_set : ℕ
timer_set = 4

abbrev pub reset_matrix_sequential : ℕ
reset_matrix_sequential = 5

abbrev pub load_pixel_register_configuration : ℕ
load_pixel_register_configuration = 9

abbrev pub output_block_config_update : ℕ
output_block_config_update = 14
