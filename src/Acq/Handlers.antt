-- ===== src/Acq/Handlers.antt =====
-- c/src/acquisition.c: the handlers of the measurement data that are no pixels, and `flush_buffer`.
-- `now` is the reading of time(NULL). Counters wrap at 2 ^ 64.
use libkatherine.Base.{ℕ, ◌+◌, ◌==◌, if◌then◌else◌, u64, ◌<<◌, true, false, []}
use libkatherine.Bitfield.{extract}
use libkatherine.Md
use libkatherine.Acq.{Acq, State, Call, no_info, tell}

unfoldable pub flush_buffer : Acq → Acq
flush_buffer acq =
    let told =
      tell acq.handlers.pixels_received
        (Call.pixels_received acq.pixel_buffer acq.pixel_buffer_valid) acq in
    let info = acq.current_frame_info in
    record told {
      current_frame_info = record info {
        received_pixels = u64 (info.received_pixels + acq.pixel_buffer_valid);
      };
      pixel_buffer = [];
      pixel_buffer_valid = 0;
    }

unfoldable pub handle_new_frame : ℕ → Acq → Acq
handle_new_frame now acq =
    tell acq.handlers.frame_started (Call.frame_started acq.completed_frames) (record acq {
      current_frame_info = record no_info { start_time_observed = now };
      frame_active = true;
      last_toa_offset = 0;
    })

unfoldable pub handle_timestamp_offset_driven_mode : ℕ → Acq → Acq
handle_timestamp_offset_driven_mode md acq = record acq {
  last_toa_offset = u64 (extract md Md.time_offset_offset << 14);
}

unfoldable pub handle_current_frame_finished : ℕ → ℕ → Acq → Acq
unfolding flush_buffer
handle_current_frame_finished now md acq =
    let info0 = acq.current_frame_info in
    let flushed =
      flush_buffer (record acq { current_frame_info = record info0 { end_time_observed = now } }) in
    let info = flushed.current_frame_info in
    let closed = record flushed {
      current_frame_info = record info {
        sent_pixels = extract md Md.frame_finished_n_sent;
        completed = true;
      };
      frame_active = false;
    } in
    let told =
      tell closed.handlers.frame_ended
        (Call.frame_ended closed.completed_frames true closed.current_frame_info) closed in
    record told {
      completed_frames = acq.completed_frames + 1;
      state =
          if acq.completed_frames + 1 == acq.requested_frames then State.succeeded else acq.state;
    }

unfoldable pub handle_acquisition_interrupted : ℕ → Acq → Acq
unfolding flush_buffer
handle_acquisition_interrupted now acq =
    let info0 = acq.current_frame_info in
    let flushed =
      flush_buffer (record acq { current_frame_info = record info0 { end_time_observed = now } }) in
    let closed = record flushed { frame_active = false } in
    tell closed.handlers.frame_ended
      (Call.frame_ended closed.completed_frames false closed.current_frame_info) closed

unfoldable pub handle_frame_start_timestamp_lsb : ℕ → Acq → Acq
handle_frame_start_timestamp_lsb md acq =
    let info = acq.current_frame_info in
    record acq { current_frame_info = record info { start_lsb = extract md Md.time_lsb_lsb } }

unfoldable pub handle_frame_start_timestamp_msb : ℕ → Acq → Acq
handle_frame_start_timestamp_msb md acq =
    let info = acq.current_frame_info in
    record acq { current_frame_info = record info { start_msb = extract md Md.time_msb_msb } }

unfoldable pub handle_frame_end_timestamp_lsb : ℕ → Acq → Acq
handle_frame_end_timestamp_lsb md acq =
    let info = acq.current_frame_info in
    record acq { current_frame_info = record info { end_lsb = extract md Md.time_lsb_lsb } }

unfoldable pub handle_frame_end_timestamp_msb : ℕ → Acq → Acq
handle_frame_end_timestamp_msb md acq =
    let info = acq.current_frame_info in
    record acq { current_frame_info = record info { end_msb = extract md Md.time_msb_msb } }

unfoldable pub handle_lost_pixel_count : ℕ → Acq → Acq
handle_lost_pixel_count md acq =
    let info = acq.current_frame_info in
    record acq {
      current_frame_info = record info {
        lost_pixels = u64 (info.lost_pixels + extract md Md.lost_px_n_lost);
      };
    }

unfoldable pub handle_aborted_measurement : Acq → Acq
handle_aborted_measurement acq = record acq { aborted = true }

-- The info is discarded.
unfoldable pub handle_trigger_info : Acq → Acq
handle_trigger_info acq = acq

unfoldable pub handle_unknown_msg : Acq → Acq
handle_unknown_msg acq = record acq {
  dropped_measurement_data = u64 (acq.dropped_measurement_data + 1);
}
