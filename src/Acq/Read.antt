-- ===== src/Acq/Read.antt =====
-- c/src/acquisition.c: `acquisition_read_*` and `katherine_acquisition_read`.
-- The receive loop takes a list of rounds: the clock at each round, and whether another thread has
-- raised the abort flag by then. All that one round reads of the clock is one of two readings, the
-- second no earlier. Where the rounds are out the loop is still running, and there is no result.
use libkatherine.Base.{
  ℕ, zero, suc, ◌+◌, ◌-◌, ◌*◌, ◌/◌, Bool, true, false, ◌&&◌, ◌||◌, if◌then◌else◌, ltb,
}
use libkatherine.Base.{List, [], ◌∷◌, ◌++◌, Option, none, some, length, drop, etimedout, eagain}
use libkatherine.Px.{Pixel}
use libkatherine.Udp.{Udp, Received, err, ok, recv, mutex_lock, mutex_unlock}
use libkatherine.Base.{einval}
use libkatherine.Md.FToaTot
use libkatherine.Md.ToaTot
use libkatherine.Md.FToaOnly
use libkatherine.Md.ToaOnly
use libkatherine.Md.FEventItot
use libkatherine.Md.EventItot
use libkatherine.Acq.{Acq, State, Mode, Call, tell}
use libkatherine.Acq.Handlers.{flush_buffer, handle_acquisition_interrupted}
use libkatherine.Acq.Decode.{decode_loop}

pub record Round : Type 0 where
  pub now : ℕ
  pub later : ℕ
  pub raised : Bool

abbrev pub is_running : State → Bool
is_running State.running = true
is_running _ = false

-- `kill_off_time` in nanoseconds, where fail_timeout is set.
abbrev pub kill_off_time : Acq → ℕ
kill_off_time acq = acq.requested_frames * acq.requested_frame_duration + acq.fail_timeout * 1000000

-- The round of a receive that failed.
unfoldable pub dried_up : Round → ℕ → Acq → Acq
dried_up r last_data_received acq =
    let late = ltb acq.report_timeout (1000 * (r.now - last_data_received)) in
    let acq₁ =
      if ltb 0 acq.report_timeout && late && ltb 0 acq.pixel_buffer_valid
      then flush_buffer acq
      else acq in
    let expired = ltb (kill_off_time acq) ((r.later - acq.acq_start_time) * 1000000000) in
    let acq₂ =
      if ltb 0 acq.fail_timeout && expired then record acq₁ { state = State.timed_out } else acq₁ in
    if acq.aborted then record acq₂ { state = State.succeeded } else acq₂

module _ (pixel_map : ℕ → ℕ → Pixel) (pixel_size : ℕ) where
  -- The round of a datagram, whose bytes stand at the beginning of the buffer.
  unfoldable pub take_datagram : Round → List ℕ → Acq → Acq
  take_datagram r bytes acq =
      let filled = record acq { md_buffer = bytes ++ drop (length bytes) acq.md_buffer } in
      if acq.decode_data
      then decode_loop pixel_map (length bytes + 1) r.later 0 (length bytes) filled
      else tell acq.handlers.data_received (Call.data_received bytes (length bytes)) filled

  unfoldable pub read_loop : List Round → ℕ → Udp → Acq → Option (Udp × Acq)
  read_loop [] last u acq = if is_running acq.state then none else some (u, acq)
  read_loop (r ∷ rounds) last u acq =
      let flagged = record acq { aborted = acq.aborted || r.raised } in
      let next : Received × Udp = recv acq.md_buffer_size u in
      let rest : Option (Udp × Acq) = elim next.0 [
        | err e ↦ read_loop rounds last next.1 (dried_up r last flagged)
        | ok bytes ↦ read_loop rounds r.now next.1 (take_datagram r bytes flagged)
      ] in
      if is_running acq.state then rest else some (u, acq)

  -- What follows the loop.
  unfoldable pub read_end : ℕ → Acq → Acq
  read_end now acq =
      if acq.frame_active
      then handle_acquisition_interrupted now acq
      else if ltb 0 acq.pixel_buffer_valid
      then flush_buffer acq
      else acq

  abbrev pub read_code : State → ℕ
  read_code State.succeeded = 0
  read_code State.timed_out = etimedout
  read_code _ = eagain

  abbrev pub read_done : ℕ → Option (Udp × Acq) → Option (ℕ × Udp × Acq)
  read_done now none = none
  read_done now (some (u, acq)) = some (read_code acq.state, mutex_unlock u, read_end now acq)

  abbrev pub read_locked : ℕ → ℕ → List Round → Acq → ℕ × Udp → Option (ℕ × Udp × Acq)
  read_locked start end rounds acq (suc e, u) = some (1, u, acq)
  read_locked start end rounds acq (zero, u) = read_done end (
      read_loop rounds start u (record acq {
        pixel_buffer = [];
        pixel_buffer_valid = 0;
        pixel_buffer_max_valid = acq.pixel_buffer_size / pixel_size;
      }))

  -- `acquisition_read_*`, with the clock at its beginning and at its end.
  unfoldable pub acquisition_read : ℕ → ℕ → List Round → Udp → Acq → Option (ℕ × Udp × Acq)
  unfolding read_loop read_end
  acquisition_read start end rounds u acq = read_locked start end rounds acq (mutex_lock u)

-- `katherine_acquisition_read`, with the sizes that the pixel structs have where uint64_t is aligned
-- to eight bytes.
unfoldable pub read : ℕ → ℕ → List Round → Udp → Acq → Option (ℕ × Udp × Acq)
unfolding acquisition_read
read start end rounds u acq = elim acq.acq_mode [
  | Mode.mode_toa_tot ↦
      if acq.fast_vco_enabled
      then acquisition_read (λ off md. Pixel.f_toa_tot (FToaTot.pixel_map off md)) 24 start end
          rounds u acq
      else acquisition_read (λ off md. Pixel.toa_tot (ToaTot.pixel_map off md)) 24 start end rounds
          u acq
  | Mode.mode_only_toa ↦
      if acq.fast_vco_enabled
      then acquisition_read (λ off md. Pixel.f_toa_only (FToaOnly.pixel_map off md)) 16 start end
          rounds u acq
      else acquisition_read (λ off md. Pixel.toa_only (ToaOnly.pixel_map off md)) 24 start end
          rounds u acq
  | Mode.mode_event_itot ↦
      if acq.fast_vco_enabled
      then acquisition_read (λ off md. Pixel.f_event_itot (FEventItot.pixel_map md)) 8 start end
          rounds u acq
      else acquisition_read (λ off md. Pixel.event_itot (EventItot.pixel_map md)) 6 start end rounds
          u acq
  | Mode.mode_other ↦ some (einval, u, acq)
]
