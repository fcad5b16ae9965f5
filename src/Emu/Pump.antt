-- ===== src/Emu/Pump.antt =====
-- c/src/emu/emu_stream.c: the course of an acquisition of the emulated readout, and the operations
-- of the data plane. The loop of `pump` runs on fuel: it stages a datum in every second round at
-- least, and there is room for 1024.
use libkatherine.Base.{
  ℕ, zero, suc, ◌+◌, ◌-◌, ◌*◌, ◌/◌, ◌%◌, ◌^◌, ◌==◌, ltb, leb, if◌then◌else◌, not,
}
use libkatherine.Base.{
  ◌&&◌, u32, u64, ◌>>>◌, ◌<<◌, bit_or, bit_xor, true, false, Option, none, some,
}
use libkatherine.Base.{List, [], length, take, drop}
use libkatherine.Bitfield.{insert}
use libkatherine.Md
use libkatherine.Emu.{Emu, Stream, Stage, Pattern, md_size}
use libkatherine.Emu.Prng.{prng_below}
use libkatherine.Emu.Generator.{
  md_new, has_room, emit, hit_due_ns, frame_close_ns, tick_ns, draw_hit, build_hit_md,
}

abbrev pub data_driven : ℕ
data_driven = 1

-- The round of the stage that sends hits.
unfoldable pub pixels_step : ℕ → Stream → Option Stream
pixels_step now s =
    let due = hit_due_ns s s.px_index in
    let offset = u64 (due + 2 ^ 64 - s.frame_open_ns) / tick_ns >>> 14 in
    let (hit, drawn) = draw_hit s due in
    let sent = emit drawn (build_hit_md s.acq_mode s.fast_vco hit) in
    let announces = s.readout_mode == data_driven && not s.offset_sent && s.px_index % 64 == 0 in
    if leb s.hits s.px_index
    then some (record s { stage = Stage.end_lsb })
    else if ltb now due
    then none
    else if announces
    then some
        (record (emit s (insert (md_new 0x5) Md.time_offset_offset offset)) { offset_sent = true })
    else some (record sent { px_index = u32 (s.px_index + 1); offset_sent = false })

-- The end of a frame.
unfoldable pub finish : Stream → Stream
finish s =
    let closed = record s { frame_active = false; frame_index = u32 (s.frame_index + 1) } in
    if ltb closed.frame_index s.frames_total
    then record closed {
      frame_open_ns = u64 (s.frame_open_ns + s.frame_len_ns);
      stage = Stage.new_frame;
    }
    else record closed { armed = false; stage = Stage.idle }

-- One round of the loop of `pump`; `none` is its return.
unfoldable pub step : ℕ → Stream → Option Stream
unfolding pixels_step finish
step now s = elim s.stage [
  | Stage.new_frame ↦
      let opened = record s { frame_active = true; px_index = 0; offset_sent = false } in
      if ltb now s.frame_open_ns
      then none
      else some (record (emit opened (insert (md_new 0x7) Md.new_frame_offset 0)) {
        stage = Stage.start_lsb;
      })
  | Stage.start_lsb ↦
      some (record (emit s (insert (md_new 0x8) Md.time_lsb_lsb (s.frame_open_ns / tick_ns))) {
        stage = Stage.start_msb;
      })
  | Stage.start_msb ↦
      some
        (record (emit s (insert (md_new 0x9) Md.time_msb_msb (s.frame_open_ns / tick_ns >>> 32))) {
          stage = Stage.pixels;
        })
  | Stage.pixels ↦ pixels_step now s
  | Stage.end_lsb ↦
      if ltb now (frame_close_ns s)
      then none
      else some
          (record (emit s (insert (md_new 0xA) Md.time_lsb_lsb (frame_close_ns s / tick_ns))) {
            stage = Stage.end_msb;
          })
  | Stage.end_msb ↦
      some
        (record (emit s (insert (md_new 0xB) Md.time_msb_msb (frame_close_ns s / tick_ns >>> 32))) {
          stage = Stage.lost;
        })
  | Stage.lost ↦
      let told =
        if ltb 0 s.lost then emit s (insert (md_new 0xD) Md.lost_px_n_lost s.lost) else s in
      some (record told { stage = Stage.finished })
  | Stage.finished ↦
      some (finish (emit s (insert (md_new 0xC) Md.frame_finished_n_sent s.px_index)))
  | Stage.idle ↦ none
]

unfoldable pub pump_loop : ℕ → ℕ → Stream → Stream
pump_loop zero now s = s
pump_loop (suc fuel) now s = elim (s.armed && has_room s) [
  | false ↦ s
  | true ↦ elim (step now s) [ none ↦ s | some s' ↦ pump_loop fuel now s' ]
]

-- A buffer that has been handed over whole is emptied first.
unfoldable pub rewind : Stream → Stream
rewind s = if s.buf_pos == length s.buf then record s { buf_pos = 0; buf = [] } else s

-- `pump`
unfoldable pub pump : ℕ → Stream → Stream
unfolding pump_loop rewind
pump now s = pump_loop 2050 now (rewind s)

-- `katherine_emu_stream_reset`
unfoldable pub stream_reset : Stream
stream_reset = record {
  armed = false;
  frame_active = false;
  stage = Stage.idle;
  readout_mode = 0;
  acq_mode = 0;
  fast_vco = false;
  frames_total = 0;
  frame_index = 0;
  frame_open_ns = 0;
  frame_len_ns = 0;
  pattern = Pattern.uniform;
  hits = 0;
  lost = 0;
  px_index = 0;
  offset_sent = false;
  hot_column = 0;
  buf = [];
  buf_pos = 0;
  tokens = 0;
  token_frac = 0;
  rng = 0;
}

-- `katherine_emu_stream_arm`
unfoldable pub stream_arm : ℕ → Emu → Stream
stream_arm readout_mode emu =
    let units = bit_or (u64 (emu.regs.acq_time_msb << 32)) emu.regs.acq_time_lsb in
    let (hot, rng) = prng_below (bit_xor emu.profile.seed 0x9E3779B97F4A7C15) 256 in
    let armed = ltb 0 emu.regs.no_frames in
    record emu.stream {
      buf = [];
      buf_pos = 0;
      readout_mode = readout_mode;
      acq_mode = emu.regs.acq_mode;
      fast_vco = emu.regs.fast_vco;
      frame_len_ns = u64 (units * 10);
      frames_total = emu.regs.no_frames;
      frame_index = 0;
      frame_open_ns = emu.now_ns;
      frame_active = false;
      pattern = emu.profile.pattern;
      hits = emu.profile.hits_per_frame;
      lost = emu.profile.lost_per_frame;
      px_index = 0;
      offset_sent = false;
      rng = rng;
      hot_column = hot;
      armed = armed;
      stage = if armed then Stage.new_frame else Stage.idle;
    }

-- What `katherine_emu_stream_stop` does once `pump` has caught up.
unfoldable pub halt : Stream → Stream
halt s =
    let told =
      if s.frame_active then record (emit s (md_new 0xE)) { frame_active = false } else s in
    if s.armed then record told { armed = false; stage = Stage.idle } else s

-- `katherine_emu_stream_stop`
unfoldable pub stream_stop : ℕ → Stream → Stream
unfolding halt pump
stream_stop now s = if s.armed then halt (pump now s) else s

abbrev pub shape_burst_bytes : ℕ
shape_burst_bytes = 65536

-- `katherine_emu_stream_advance`
unfoldable pub stream_advance : ℕ → ℕ → Stream → Stream
stream_advance rate ns s =
    let total = u64 (s.token_frac + u64 (ns * rate)) in
    let tokens = u64 (s.tokens + total / 1000000000) in
    if rate == 0
    then s
    else if ltb ((2 ^ 64 - 1 - 1000000000) / rate) ns
    then record s { tokens = shape_burst_bytes; token_frac = 0 }
    else record s {
      tokens = if ltb shape_burst_bytes tokens then shape_burst_bytes else tokens;
      token_frac = total % 1000000000;
    }

-- How many bytes `katherine_emu_data_out` hands over, once `pump` has run.
unfoldable pub out_count : ℕ → ℕ → Stream → ℕ
out_count rate cap s =
    let count = length s.buf - s.buf_pos in
    let count = if ltb cap count then cap else count in
    let count = if not (rate == 0) && ltb s.tokens count then s.tokens else count in
    count - count % md_size

-- `katherine_emu_data_out`: the bytes, or EAGAIN.
unfoldable pub data_out : ℕ → Emu → Option (List ℕ) × Emu
unfolding out_count
data_out cap emu =
    let s = pump emu.now_ns emu.stream in
    let rate = emu.profile.shape_bytes_per_s in
    let count = out_count rate cap s in
    let taken = record s {
      buf_pos = s.buf_pos + count;
      tokens = if rate == 0 then s.tokens else s.tokens - count;
    } in
    if count == 0
    then (none, record emu { stream = s })
    else (some (take count (drop s.buf_pos s.buf)), record emu { stream = taken })
