-- ===== src/Md.antt =====
-- c/src/md.h: the bit fields of the measurement data that are no pixels, and the header that tells
-- the kinds apart. A measurement datum is 6 bytes, read as a uint64_t whose top two bytes belong to
-- what follows it; no field reaches them. The pixel layouts are the children.
pub mod FToaTot
pub mod ToaTot
pub mod FToaOnly
pub mod ToaOnly
pub mod FEventItot
pub mod EventItot
use libkatherine.Bitfield.{Field}

abbrev pub header : Field
header = record { start = 44; width = 4; bits = 8 }

abbrev pub time_offset_offset : Field
time_offset_offset = record { start = 0; width = 32; bits = 32 }

abbrev pub new_frame_offset : Field
new_frame_offset = record { start = 32; width = 12; bits = 16 }

abbrev pub frame_finished_n_sent : Field
frame_finished_n_sent = record { start = 0; width = 44; bits = 64 }

abbrev pub time_lsb_lsb : Field
time_lsb_lsb = record { start = 0; width = 32; bits = 32 }

abbrev pub time_msb_msb : Field
time_msb_msb = record { start = 0; width = 16; bits = 16 }

abbrev pub lost_px_n_lost : Field
lost_px_n_lost = record { start = 0; width = 44; bits = 64 }
