-- ===== src/Emu.antt =====
-- c/include/katherine/emulator.h: the state of the emulated readout. An array is the function from its
-- indices, with stores that leave the other indices alone; an index is taken modulo the size of the
-- array, or tested against it, by the code. The staging buffer is the list of the bytes below buf_len,
-- so buf_len is its length. A float is its bit pattern.
pub mod Prng
pub mod Generator
pub mod Pump
pub mod Staging
pub mod Tokens
pub mod Pending
pub mod Handover
pub mod Shaping
pub mod Safe
pub mod Feed
pub mod Registers
pub mod Parts
pub mod Encoded
pub mod Configured
pub mod Acked
pub mod Answered
pub mod Configures
pub mod Respond
pub mod Commands
pub mod Ring
pub mod Queue
pub mod Log
pub mod Layouts
use libkatherine.Base.{ℕ, ◌==◌, if◌then◌else◌, Bool, List}

abbrev pub crd_size : ℕ
crd_size = 8

abbrev pub md_size : ℕ
md_size = 6

abbrev pub crd_queue_cap : ℕ
crd_queue_cap = 256

abbrev pub log_cap : ℕ
log_cap = 2048

abbrev pub stage_mds : ℕ
stage_mds = 1024

-- A store into an array.
abbrev pub store {ℓ} : {A : Type ℓ} → (ℕ → A) → ℕ → A → ℕ → A
store array i v j = if i == j then v else array j

-- `katherine_emu_pattern_t`; `other` is a value that is none of the three.
pub data Pattern : Type 0 where
  uniform hot_column gradient other : Pattern

-- `katherine_emu_profile_t`; the identifier is the characters up to its terminator.
pub record Profile : Type 0 where
  pub hw_type : ℕ
  pub hw_revision : ℕ
  pub serial : ℕ
  pub fw_version : ℕ
  pub chip_id : List ℕ
  pub readout_temperature : ℕ
  pub sensor_temperature : ℕ
  pub ack_latency_ns : ℕ
  pub ack_jitter_ns : ℕ
  pub seed : ℕ
  pub shape_bytes_per_s : ℕ
  pub pattern : Pattern
  pub hits_per_frame : ℕ
  pub lost_per_frame : ℕ

-- `katherine_emu_log_entry_t`
pub record LogEntry : Type 0 where
  pub opcode : ℕ
  pub subindex : ℕ
  pub payload : ℕ

-- `katherine_emu_regs_t`
pub record Regs : Type 0 where
  pub dac : ℕ → ℕ
  pub sensor_reg : ℕ → ℕ
  pub acq_setup : ℕ → ℕ
  pub trigger_gen : ℕ → ℕ
  pub bias : ℕ
  pub acq_time_lsb : ℕ
  pub acq_time_msb : ℕ
  pub no_frames : ℕ
  pub acq_mode : ℕ
  pub fast_vco : Bool
  pub readout_mode : ℕ
  pub tokens : ℕ
  pub tdc_setup : ℕ
  pub led : List ℕ
  pub tp_count : ℕ
  pub tp_period_code : ℕ
  pub tp_phase : ℕ
  pub tp_flags : ℕ

-- `katherine_emu_crd_t`
pub record Crd : Type 0 where
  pub due_ns : ℕ
  pub bytes : List ℕ

-- `katherine_emu_stage_t`
pub data Stage : Type 0 where
  new_frame start_lsb start_msb pixels end_lsb end_msb lost finished idle : Stage

-- `katherine_emu_stream_t`; the generator is its state.
pub record Stream : Type 0 where
  pub armed : Bool
  pub frame_active : Bool
  pub stage : Stage
  pub readout_mode : ℕ
  pub acq_mode : ℕ
  pub fast_vco : Bool
  pub frames_total : ℕ
  pub frame_index : ℕ
  pub frame_open_ns : ℕ
  pub frame_len_ns : ℕ
  pub pattern : Pattern
  pub hits : ℕ
  pub lost : ℕ
  pub px_index : ℕ
  pub offset_sent : Bool
  pub hot_column : ℕ
  pub buf : List ℕ
  pub buf_pos : ℕ
  pub tokens : ℕ
  pub token_frac : ℕ
  pub rng : ℕ

-- `katherine_emu_t`
pub record Emu : Type 0 where
  pub profile : Profile
  pub chip_id_word : ℕ
  pub now_ns : ℕ
  pub regs : Regs
  pub px_upload_words : ℕ
  pub px_upload_active : Bool
  pub px_upload_chip : ℕ
  pub crd : ℕ → Crd
  pub crd_head : ℕ
  pub crd_count : ℕ
  pub crd_dropped : ℕ
  pub log : ℕ → LogEntry
  pub log_head : ℕ
  pub log_count : ℕ
  pub unknown_cmds : ℕ
  pub jitter_rng : ℕ
  pub stream : Stream
