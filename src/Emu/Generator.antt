-- ===== src/Emu/Generator.antt =====
-- c/src/emu/emu_stream.c: the generator of measurement data.
use libkatherine.Base.{ℕ, ◌+◌, ◌-◌, ◌*◌, ◌/◌, ◌%◌, ◌^◌, ◌==◌, ltb, leb, if◌then◌else◌}
use libkatherine.Base.{u8, u16, u64, bit_and, Bool}
use libkatherine.Base.{◌++◌, length, le_bytes}
use libkatherine.Bitfield.{Field, insert, mask}
use libkatherine.Md
use libkatherine.Md.FToaTot
use libkatherine.Md.ToaTot
use libkatherine.Md.FToaOnly
use libkatherine.Md.ToaOnly
use libkatherine.Md.FEventItot
use libkatherine.Md.EventItot
use libkatherine.Emu.{Stream, Pattern, md_size, stage_mds}
use libkatherine.Emu.Prng.{prng_below}

-- `emu_hit_t`
pub record Hit : Type 0 where
  pub x : ℕ
  pub y : ℕ
  pub toa : ℕ
  pub ftoa : ℕ
  pub hit_count : ℕ
  pub tot : ℕ
  pub event_count : ℕ
  pub integral_tot : ℕ

-- `EMU_MD_NEW`
unfoldable pub md_new : ℕ → ℕ
md_new header = insert 0 Md.header header

unfoldable pub has_room : Stream → Bool
has_room s = leb (length s.buf + md_size) (stage_mds * md_size)

-- The bytes of a datum go behind those that are staged.
unfoldable pub emit : Stream → ℕ → Stream
unfolding has_room
emit s md = if has_room s then record s { buf = s.buf ++ le_bytes md_size md } else s

unfoldable pub hit_due_ns : Stream → ℕ → ℕ
hit_due_ns s index =
    let spacing = s.frame_len_ns / (s.hits + 1) in
    u64 (s.frame_open_ns + u64 (spacing * (index + 1)))

unfoldable pub frame_close_ns : Stream → ℕ
frame_close_ns s = u64 (s.frame_open_ns + s.frame_len_ns)

abbrev pub tick_ns : ℕ
tick_ns = 25

-- The coordinates that the pattern draws, and the generator after them.
unfoldable pub draw_coord : Stream → (ℕ × ℕ) × ℕ
draw_coord s =
    let (a, r₁) = prng_below s.rng 256 in
    let (b, r₂) = prng_below r₁ 256 in
    let (c, r₃) = prng_below r₂ 256 in
    elim s.pattern [
      | Pattern.hot_column ↦ ((s.hot_column, u8 (s.px_index % 256)), s.rng)
      | Pattern.gradient ↦ ((if ltb b a then a else b, c), r₃)
      | Pattern.uniform ↦ ((a, b), r₂)
      | Pattern.other ↦ ((a, b), r₂)
    ]

-- `draw_hit`: the hit, and the stream after the draws. A due time before the frame wraps, as the
-- difference of two uint64_t does.
unfoldable pub draw_hit : Stream → ℕ → Hit × Stream
unfolding draw_coord
draw_hit s due_ns =
    let ((x, y), r₀) = draw_coord s in
    let (ftoa, r₁) = prng_below r₀ 16 in
    let (tot, r₂) = prng_below r₁ 1024 in
    let (events, r₃) = prng_below r₂ 64 in
    let event_count = u16 (1 + events) in
    (
      record {
        x = x;
        y = y;
        toa = bit_and (u64 (due_ns + 2 ^ 64 - s.frame_open_ns) / tick_ns) (mask 14);
        ftoa = ftoa;
        hit_count = 1;
        tot = tot;
        event_count = event_count;
        integral_tot = bit_and (event_count * tot) (mask 14);
      },
      record s { rng = r₃ },
    )

-- `EMU_MD_COORD`
unfoldable pub md_coord : Field → Field → Hit → ℕ → ℕ
md_coord coord_x coord_y hit md = insert (insert md coord_x hit.x) coord_y hit.y

-- `build_hit_md`, of the mode and the oscillator of the stream.
unfoldable pub build_hit_md : ℕ → Bool → Hit → ℕ
unfolding md_new md_coord
build_hit_md acq_mode fast_vco hit =
    let md = md_new 0x4 in
    let f_toa_tot =
      let md = md_coord FToaTot.coord_x FToaTot.coord_y hit md in
      let md = insert md FToaTot.toa hit.toa in
      let md = insert md FToaTot.ftoa hit.ftoa in insert md FToaTot.tot hit.tot in
    let toa_tot =
      let md = md_coord ToaTot.coord_x ToaTot.coord_y hit md in
      let md = insert md ToaTot.toa hit.toa in
      let md = insert md ToaTot.hit_count hit.hit_count in insert md ToaTot.tot hit.tot in
    let f_toa_only =
      let md = md_coord FToaOnly.coord_x FToaOnly.coord_y hit md in
      let md = insert md FToaOnly.toa hit.toa in insert md FToaOnly.ftoa hit.ftoa in
    let toa_only =
      let md = md_coord ToaOnly.coord_x ToaOnly.coord_y hit md in
      let md = insert md ToaOnly.toa hit.toa in insert md ToaOnly.hit_count hit.hit_count in
    let f_event_itot =
      let md = md_coord FEventItot.coord_x FEventItot.coord_y hit md in
      let md = insert md FEventItot.hit_count hit.hit_count in
      let md = insert md FEventItot.event_count hit.event_count in
      insert md FEventItot.integral_tot hit.integral_tot in
    let event_itot =
      let md = md_coord EventItot.coord_x EventItot.coord_y hit md in
      let md = insert md EventItot.event_count hit.event_count in
      insert md EventItot.integral_tot hit.integral_tot in
    if acq_mode == 0
    then if fast_vco then f_toa_tot else toa_tot
    else if acq_mode == 1
    then if fast_vco then f_toa_only else toa_only
    else if acq_mode == 2
    then if fast_vco then f_event_itot else event_itot
    else md
