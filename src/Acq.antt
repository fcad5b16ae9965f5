-- ===== src/Acq.antt =====
-- c/include/katherine/acquisition.h: the state of an acquisition, and what its handlers are told.
--
-- The pixel buffer is the list of the slots below pixel_buffer_valid. User handlers are recorded as a
-- trace of calls; a handler that is NULL is one that is not registered. The handlers are taken not to
-- change the acquisition. Counts of frames are non-negative. Every reading of the clock is an argument
-- of the operation that makes it, in whole seconds as time_t has them; durations that the code holds
-- in floating point are counted in nanoseconds.
pub mod Handlers
pub mod Decode
pub mod Delivery
pub mod Words
pub mod Frame
pub mod Read
pub mod Begin
pub mod Started
pub mod Outcome
use libkatherine.Base.{ℕ, Bool, true, false, List, [], ◌∷◌}
use libkatherine.Px.{Pixel}

pub data State : Type 0 where
  not_started running succeeded timed_out : State

-- `katherine_acquisition_mode_t`; `other` is a value of the char that is none of the three.
pub data Mode : Type 0 where
  mode_toa_tot mode_only_toa mode_event_itot mode_other : Mode

-- `katherine_frame_info_t`, the two time stamps by their halves.
pub record FrameInfo : Type 0 where
  pub received_pixels : ℕ
  pub sent_pixels : ℕ
  pub lost_pixels : ℕ
  pub start_lsb : ℕ
  pub start_msb : ℕ
  pub end_lsb : ℕ
  pub end_msb : ℕ
  pub start_time_observed : ℕ
  pub end_time_observed : ℕ
  pub completed : Bool

-- `katherine_acquisition_handlers_t`: which of the handlers are registered.
pub record Registered : Type 0 where
  pub pixels_received : Bool
  pub frame_started : Bool
  pub frame_ended : Bool
  pub data_received : Bool

-- A call of a handler, with its arguments.
pub data Call : Type 0 where
  pixels_received : List Pixel → ℕ → Call
  frame_started : ℕ → Call
  frame_ended : ℕ → Bool → FrameInfo → Call
  data_received : List ℕ → ℕ → Call

-- `katherine_acquisition_t`, with the trace of the calls so far, the latest first.
pub record Acq : Type 0 where
  pub state : State
  pub aborted : Bool
  pub readout_mode : ℕ
  pub acq_mode : Mode
  pub fast_vco_enabled : Bool
  pub md_buffer : List ℕ
  pub md_buffer_size : ℕ
  pub decode_data : Bool
  pub pixel_buffer : List Pixel
  pub pixel_buffer_size : ℕ
  pub pixel_buffer_valid : ℕ
  pub pixel_buffer_max_valid : ℕ
  pub requested_frames : ℕ
  pub requested_frame_duration : ℕ
  pub completed_frames : ℕ
  pub dropped_measurement_data : ℕ
  pub acq_start_time : ℕ
  pub report_timeout : ℕ
  pub fail_timeout : ℕ
  pub handlers : Registered
  pub current_frame_info : FrameInfo
  pub last_toa_offset : ℕ
  pub frame_active : Bool
  pub calls : List Call

-- What memset leaves.
abbrev pub no_info : FrameInfo
no_info = record {
  received_pixels = 0;
  sent_pixels = 0;
  lost_pixels = 0;
  start_lsb = 0;
  start_msb = 0;
  end_lsb = 0;
  end_msb = 0;
  start_time_observed = 0;
  end_time_observed = 0;
  completed = false;
}

-- A call of a handler if it is registered.
abbrev pub tell : Bool → Call → Acq → Acq
tell true c acq = record acq { calls = c ∷ acq.calls }
tell false c acq = acq
