-- ===== src/Crd.antt =====
-- c/src/crd.h: the fields of the responses to the two status commands.
use libkatherine.Bitfield.{Field}

abbrev pub hw_type : Field
hw_type = record { start = 0; width = 8; bits = 8 }

abbrev pub hw_revision : Field
hw_revision = record { start = 8; width = 8; bits = 8 }

abbrev pub hw_serial_number : Field
hw_serial_number = record { start = 16; width = 16; bits = 16 }

abbrev pub fw_version : Field
fw_version = record { start = 32; width = 16; bits = 16 }

abbrev pub comm_lines_mask : Field
comm_lines_mask = record { start = 0; width = 8; bits = 8 }

abbrev pub total_data_rate : Field
total_data_rate = record { start = 8; width = 8; bits = 8 }

abbrev pub chip_detected_flag : Field
chip_detected_flag = record { start = 16; width = 8; bits = 8 }
