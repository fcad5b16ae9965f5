-- ===== src/Command/CmdType.antt =====
-- c/src/command_interface.h: `katherine_cmd_type_t`, as far as the commands are sent.
use libkatherine.Base.{ℕ}

abbrev pub acquisition_time_lsb : ℕ
acquisition_time_lsb = 0x01

abbrev pub bias_settings : ℕ
bias_settings = 0x02

abbrev pub acquisition_start : ℕ
acquisition_start = 0x03

abbrev pub internal_dac_settings : ℕ
internal_dac_settings = 0x04

abbrev pub seq_readout_start : ℕ
seq_readout_start = 0x05

abbrev pub acquisition_stop : ℕ
acquisition_stop = 0x06

abbrev pub hw_command_start : ℕ
hw_command_start = 0x07

abbrev pub sensor_register_setting : ℕ
sensor_register_setting = 0x08

abbrev pub acquisition_mode_setting : ℕ
acquisition_mode_setting = 0x09

abbrev pub acquisition_time_msb : ℕ
acquisition_time_msb = 0x0A

abbrev pub set_all_pixel_config : ℕ
set_all_pixel_config = 0x12

abbrev pub number_of_frames : ℕ
number_of_frames = 0x13

abbrev pub get_hw_readout_temperature : ℕ
get_hw_readout_temperature = 0x15

abbrev pub acquisition_setup : ℕ
acquisition_setup = 0x21

abbrev pub test_pulse_setting : ℕ
test_pulse_setting = 0x26

abbrev pub echo_chip_id : ℕ
echo_chip_id = 0x0B

abbrev pub get_bias_voltage : ℕ
get_bias_voltage = 0x0C

abbrev pub get_adc_voltage : ℕ
get_adc_voltage = 0x0D

abbrev pub get_back_read_register : ℕ
get_back_read_register = 0x0E

abbrev pub set_pixel_config : ℕ
set_pixel_config = 0x10

abbrev pub get_pixel_config : ℕ
get_pixel_config = 0x11

abbrev pub led_settings : ℕ
led_settings = 0x16

abbrev pub get_readout_status : ℕ
get_readout_status = 0x17

abbrev pub get_communication_status : ℕ
get_communication_status = 0x18

abbrev pub get_sensor_temperature : ℕ
get_sensor_temperature = 0x19

abbrev pub digital_test : ℕ
digital_test = 0x20

abbrev pub internal_trigger_generator : ℕ
internal_trigger_generator = 0x23

abbrev pub toa_calibration_setup : ℕ
toa_calibration_setup = 0x28

abbrev pub internal_tdc_settings : ℕ
internal_tdc_settings = 0x32
