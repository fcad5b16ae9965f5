-- ===== src/Ksim/Daemon/Work.antt =====
-- How much the stream of c/src/emu/emu_stream.c can still stage, for the loop of tools/ksim/main.c
-- that empties it.
use libkatherine.Base.{ℕ, zero, suc, ◌+◌, ◌-◌, ◌*◌, ◌^◌, ◌≤◌, ◌<◌, ◌≡◌, ◌⊎◌, inl, inr}
use libkatherine.Base.{refl, arith, length, ◌&&◌, some, u32}
use libkatherine.Base.{Bool-cases, Option-cases, sym, ◌∙◌}
use mathlib.Core.Path.{subst}
use libkatherine.Emu.{Stream, Stage}
use libkatherine.Emu.Generator.{emit, has_room, draw_hit, hit_due_ns}
use libkatherine.Emu.Pump.{pixels_step, finish, step, pump_loop, rewind, pump}
use libkatherine.Emu.Staging.{
  length_staged, draw_hit_buf, pump_stays, pump_ends, pump_waits, pump_goes,
}
use libkatherine.Ksim.Daemon.{work}

-- The counters are 32-bit integers, there is a frame to come unless the stage is idle, and what has
-- been handed over is not more than what was staged.
pub record IsBounded (s : Stream) : Type 0 where
  pub frames : s.frames_total < 2 ^ 32
  pub hits : s.hits < 2 ^ 32
  pub ahead : (s.stage ≡ Stage.idle) ⊎ (s.frame_index < s.frames_total)
  pub handed : s.buf_pos ≤ length s.buf

-- A round that goes on stages a datum at most, and there is less work after it.
pub record Works (s s' : Stream) : Type 0 where
  pub bounded : IsBounded s'
  pub less : length s'.buf + 6 * work s' ≤ length s.buf + 6 * work s
  pub position : s'.buf_pos ≡ s.buf_pos

frame_less : (a b : ℕ) → suc a * b ≡ a * b + b
frame_less a b = omega arith

-- What the draw of a hit leaves alone.
record Keeps (s s' : Stream) : Type 0 where
  frames : s'.frames_total ≡ s.frames_total
  hits : s'.hits ≡ s.hits
  index : s'.frame_index ≡ s.frame_index
  position : s'.buf_pos ≡ s.buf_pos
  stage : s'.stage ≡ s.stage

draw_hit-Keeps : (s : Stream) (due : ℕ) → Keeps s (draw_hit s due).1
unfolding draw_hit
draw_hit-Keeps s due = ground arith

pixels_step-Works :
    (now : ℕ) (s s' : Stream)
    → IsBounded s
    → s.stage ≡ Stage.pixels
    → pixels_step now s ≡ some s'
    → Works s s'
unfolding pixels_step emit
pixels_step-Works now s s' b here e =
    grind (arith, length_staged, draw_hit_buf, draw_hit-Keeps s (hit_due_ns s s.px_index))

-- What is staged of a datum.
record Stages (s s' : Stream) : Type 0 where
  keeps : Keeps s s'
  pixel : s'.px_index ≡ s.px_index
  offset : s'.offset_sent ≡ s.offset_sent
  grows : length s'.buf ≤ length s.buf + 6
  above : length s.buf ≤ length s'.buf

emit-Stages : (s : Stream) (md : ℕ) → Stages s (emit s md)
unfolding emit
emit-Stages s md = grind (arith, length_staged)

less_frame :
    (total index next k : ℕ)
    → next ≡ index + 1
    → next < total
    → (total - index - 1) * k ≡ (total - next - 1) * k + k
less_frame total index next k e h =
    let n = total - next - 1 in
    let one : total - index - 1 ≡ suc n = omega arith in rw one (frame_less n k)

finish-Works :
    (s : Stream)
    → IsBounded s
    → s.stage ≡ Stage.finished
    → Works s (finish s)
      × (length (finish s).buf + 6 * work (finish s) + 6 ≤ length s.buf + 6 * work s)
unfolding finish
finish-Works s b here =
    grind
      (arith, less_frame s.frames_total s.frame_index (u32 (s.frame_index + 1)) (2 * s.hits + 9))

-- The round of each stage.
staged_step :
    (now : ℕ) (stage : Stage) (s s' : Stream)
    → s.stage ≡ stage
    → IsBounded s
    → step now s ≡ some s'
    → Works s s'
unfolding step
staged_step now Stage.new_frame s s' here b e = grind (arith, emit-Stages)
staged_step now Stage.start_lsb s s' here b e = grind (arith, emit-Stages)
staged_step now Stage.start_msb s s' here b e = grind (arith, emit-Stages)
staged_step now Stage.pixels s s' here b e = grind (arith, pixels_step-Works now s s')
staged_step now Stage.end_lsb s s' here b e = grind (arith, emit-Stages)
staged_step now Stage.end_msb s s' here b e = grind (arith, emit-Stages)
staged_step now Stage.lost s s' here b e = grind (arith, emit-Stages)
staged_step now Stage.finished s s' here b e = grind (arith, emit-Stages, finish-Works)
staged_step now Stage.idle s s' here b e = grind arith

step-Works : (now : ℕ) (s s' : Stream) → IsBounded s → step now s ≡ some s' → Works s s'
step-Works now s s' = staged_step now s.stage s s' refl

Works-Works : (s t u : Stream) → Works s t → Works t u → Works s u
Works-Works s t u p q = record {
  bounded = q.bounded;
  less = omega (arith, p.less, q.less);
  position = q.position ∙ p.position;
}

pump_loop-Works : (fuel now : ℕ) (s : Stream) → IsBounded s → Works s (pump_loop fuel now s)
pump_loop-Works zero now s b =
    subst (Works s) (sym (pump_stays now s))
      (record { bounded = b; less = omega arith; position = refl })
pump_loop-Works (suc fuel) now s b =
    let same : Works s s = record { bounded = b; less = omega arith; position = refl } in
    elim (Bool-cases (s.armed && has_room s)) [
      | inl e ↦ elim (Option-cases (step now s)) [
        | inl stops ↦ subst (Works s) (sym (pump_waits fuel now s stops)) same
        | inr (s', goes) ↦
            let w = step-Works now s s' b goes in
            subst (Works s) (sym (pump_goes fuel now s s' e goes))
              (Works-Works s s' (pump_loop fuel now s') w (pump_loop-Works fuel now s' w.bounded))
      ]
      | inr e ↦ subst (Works s) (sym (pump_ends fuel now s e)) same
    ]

-- What the stream can still hand over, at most: what is staged, and six bytes for each round of work.
abbrev pub bytes_left : Stream → ℕ
bytes_left s = length s.buf - s.buf_pos + 6 * work s

-- The pump stages no more than there was to stage.
pub pump-bytes_left :
    (now : ℕ) (s : Stream)
    → IsBounded s
    → IsBounded (pump now s) × (bytes_left (pump now s) ≤ bytes_left s)
unfolding pump rewind
pump-bytes_left now s b =
    let r : IsBounded (rewind s) × (bytes_left (rewind s) ≤ bytes_left s) = ground arith in
    let w = pump_loop-Works 2050 now (rewind s) r.0 in
    (w.bounded, omega (arith, w.less, w.position, w.bounded.handed, r.1, r.0.handed))
