-- ===== src/Acq/Decode.antt =====
-- c/src/acquisition.c: `handle_measurement_data_*` and the loop over the data of one datagram.
-- The macro DEFINE_ACQ_IMPL is the section: its parameter is the pixel mapping of the layout.
use libkatherine.Base.{ℕ, zero, suc, ◌+◌, ◌*◌, ◌^◌, ◌==◌, leb, if◌then◌else◌, u64, List, ◌∷◌, ◌++◌}
use libkatherine.Base.{get_or, take, drop}
use libkatherine.Bitfield.{extract}
use libkatherine.Md
use libkatherine.Px.{Pixel}
use libkatherine.Acq.{Acq}
use libkatherine.Acq.Handlers.{
  flush_buffer, handle_new_frame, handle_timestamp_offset_driven_mode,
  handle_current_frame_finished, handle_frame_start_timestamp_lsb, handle_frame_start_timestamp_msb,
  handle_frame_end_timestamp_lsb, handle_frame_end_timestamp_msb, handle_lost_pixel_count,
  handle_aborted_measurement, handle_trigger_info, handle_unknown_msg,
}

-- The cases of the `switch` on the header.
pub data Kind : Type 0 where
  pixel trigger_info time_offset new_frame start_lsb start_msb end_lsb end_msb : Kind
  frame_finished lost_pixels aborted unknown : Kind

unfoldable pub kind_of : ℕ → Kind
kind_of hdr =
    if hdr == 0x4
    then Kind.pixel
    else if hdr == 0x2
    then Kind.trigger_info
    else if hdr == 0x3
    then Kind.trigger_info
    else if hdr == 0x5
    then Kind.time_offset
    else if hdr == 0x7
    then Kind.new_frame
    else if hdr == 0x8
    then Kind.start_lsb
    else if hdr == 0x9
    then Kind.start_msb
    else if hdr == 0xA
    then Kind.end_lsb
    else if hdr == 0xB
    then Kind.end_msb
    else if hdr == 0xC
    then Kind.frame_finished
    else if hdr == 0xD
    then Kind.lost_pixels
    else if hdr == 0xE
    then Kind.aborted
    else Kind.unknown

abbrev pub kind : ℕ → Kind
kind md = kind_of (extract md Md.header)

-- `*(const uint64_t *) it` at byte `i` of the buffer, on a little-endian host.
unfoldable pub word_at : List ℕ → ℕ → ℕ
word_at buffer i =
    get_or buffer i 0
    + get_or buffer (i + 1) 0 * 2 ^ 8
    + get_or buffer (i + 2) 0 * 2 ^ 16
    + get_or buffer (i + 3) 0 * 2 ^ 24
    + get_or buffer (i + 4) 0 * 2 ^ 32
    + get_or buffer (i + 5) 0 * 2 ^ 40
    + get_or buffer (i + 6) 0 * 2 ^ 48
    + get_or buffer (i + 7) 0 * 2 ^ 56

module _ (pixel_map : ℕ → ℕ → Pixel) where
  -- A pixel is stored at index pixel_buffer_valid, after a flush if the buffer is full. What a
  -- flush has handed over is no longer in the list.
  unfoldable pub store_pixel : ℕ → Acq → Acq
  store_pixel md acq =
      let ready =
        if acq.pixel_buffer_valid == acq.pixel_buffer_max_valid then flush_buffer acq else acq in
      let px = pixel_map ready.last_toa_offset md in
      let i = ready.pixel_buffer_valid in
      record ready {
        pixel_buffer = take i ready.pixel_buffer ++ (px ∷ drop (suc i) ready.pixel_buffer);
        pixel_buffer_valid = u64 (i + 1);
      }

  unfoldable pub handle_kind : Kind → ℕ → ℕ → Acq → Acq
  unfolding store_pixel flush_buffer handle_new_frame handle_timestamp_offset_driven_mode
      handle_current_frame_finished handle_frame_start_timestamp_lsb
      handle_frame_start_timestamp_msb handle_frame_end_timestamp_lsb handle_frame_end_timestamp_msb
      handle_lost_pixel_count handle_aborted_measurement handle_trigger_info handle_unknown_msg
  handle_kind Kind.pixel now md acq = store_pixel md acq
  handle_kind Kind.trigger_info now md acq = handle_trigger_info acq
  handle_kind Kind.time_offset now md acq = handle_timestamp_offset_driven_mode md acq
  handle_kind Kind.new_frame now md acq = handle_new_frame now acq
  handle_kind Kind.start_lsb now md acq = handle_frame_start_timestamp_lsb md acq
  handle_kind Kind.start_msb now md acq = handle_frame_start_timestamp_msb md acq
  handle_kind Kind.end_lsb now md acq = handle_frame_end_timestamp_lsb md acq
  handle_kind Kind.end_msb now md acq = handle_frame_end_timestamp_msb md acq
  handle_kind Kind.frame_finished now md acq = handle_current_frame_finished now md acq
  handle_kind Kind.lost_pixels now md acq = handle_lost_pixel_count md acq
  handle_kind Kind.aborted now md acq = handle_aborted_measurement acq
  handle_kind Kind.unknown now md acq = handle_unknown_msg acq

  unfoldable pub handle_measurement_data : ℕ → ℕ → Acq → Acq
  unfolding handle_kind
  handle_measurement_data now md acq = handle_kind (kind md) now md acq

  -- `for (i = 0; i + KATHERINE_MD_SIZE <= received; i += KATHERINE_MD_SIZE, …)`, on fuel.
  unfoldable pub decode_loop : ℕ → ℕ → ℕ → ℕ → Acq → Acq
  decode_loop zero now i received acq = acq
  decode_loop (suc fuel) now i received acq =
      let rest =
        decode_loop fuel now (i + 6) received
          (handle_measurement_data now (word_at acq.md_buffer i) acq) in
      if leb (i + 6) received then rest else acq
