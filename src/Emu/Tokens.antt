-- ===== src/Emu/Tokens.antt =====
-- What the data plane of the emulated readout in c/src/emu/emu_stream.c keeps of its staging buffer and
-- of its token bucket, and what it hands over.
use libkatherine.Base.{ℕ, ◌+◌, ◌-◌, ◌*◌, ◌/◌, ◌%◌, ◌^◌, ◌<◌, ◌≤◌, ◌≡◌, arith}
use libkatherine.Base.{length, some}
use libkatherine.Base.{ltb}
use libkatherine.Base.{min}
use native.Mathlib.Nat.{div-lt_iff_lt-mul}
use libkatherine.Emu.{Stream}
use libkatherine.Emu.Generator.{emit, has_room, draw_hit}
use libkatherine.Emu.Staging.{length_staged}
use libkatherine.Emu.Pump.{pixels_step, finish, step, stream_advance}

-- The staging buffer holds whole data, as many as it has room for at most, of which whole data have
-- been handed over; the bucket holds one burst at most, and the fraction less than a token.
pub record IsSound (s : Stream) : Type 0 where
  pub size : length s.buf ≤ 6144
  pub whole : length s.buf % 6 ≡ 0
  pub pos : s.buf_pos ≤ length s.buf
  pub pos_whole : s.buf_pos % 6 ≡ 0
  pub burst : s.tokens ≤ 65536
  pub frac : s.token_frac < 1000000000

-- A round changes only the buffer, and that by one datum.
pub step_pos : (now : ℕ) (s s' : Stream) → step now s ≡ some s' → s'.buf_pos ≡ s.buf_pos
unfolding step finish pixels_step emit draw_hit
step_pos now s s' e = grind (arith)

pub step-IsSound : (now : ℕ) (s s' : Stream) → IsSound s → step now s ≡ some s' → IsSound s'
unfolding step finish pixels_step emit has_room draw_hit
step-IsSound now s s' h e = grind (arith, length_staged, h)

pub advance-IsSound : (rate ns : ℕ) (s : Stream) → IsSound s → IsSound (stream_advance rate ns s)
unfolding stream_advance
advance-IsSound rate ns s h = grind (arith)

-- The test for an absurdly long step, as a test of the bytes that it makes.
guard_iff :
    (rate ns : ℕ)
    → 0 < rate
    → ltb ((2 ^ 64 - 1 - 1000000000) / rate) ns ≡ ltb (2 ^ 64 - 1 - 1000000000) (ns * rate)
guard_iff rate ns pos = grind (arith, div-lt_iff_lt-mul)

-- When time passes, the bucket of a shaped stream gets one token for each byte of the rate, and holds
-- one burst at most, as if all the arithmetic of the code were unbounded: the products and sums of
-- uint64_t never wrap, and the shortcut for an absurdly long step only fills the bucket where it
-- would be full. The stream is sound and the rate is not 0.
pub stream_advance-tokens :
    (rate ns : ℕ) (s : Stream)
    → IsSound s
    → 0 < rate
    → (stream_advance rate ns s).tokens
      ≡ min 65536 (s.tokens + (s.token_frac + ns * rate) / 1000000000)
unfolding stream_advance
stream_advance-tokens rate ns s h pos = ground (arith, guard_iff rate ns pos, h)

-- The tokens that time brings, and what is left of a token, are paid for by it.
pub advance_paid :
    (rate ns : ℕ) (s : Stream)
    → IsSound s
    → 0 < rate
    → let s' = stream_advance rate ns s in
      1000000000 * s'.tokens + s'.token_frac ≤ 1000000000 * s.tokens + s.token_frac + ns * rate
unfolding stream_advance
advance_paid rate ns s h pos = ground (arith, guard_iff rate ns pos)
