-- ===== src/Emu/Staging.antt =====
-- The staging buffer of the emulated readout: the rounds of `pump` in c/src/emu/emu_stream.c, and what
-- the data plane keeps of the buffer and of the token bucket.
use libkatherine.Base.{ℕ, zero, suc, ◌+◌, ◌-◌, ◌*◌, ◌/◌, ◌<◌, ◌≤◌, ◌≡◌, ◌⊎◌, inl, inr, refl, arith}
use libkatherine.Base.{List, [], ◌∷◌, ◌++◌, length, length-append, true, false, ◌&&◌, none, some}
use libkatherine.Base.{Bool-cases, Option-cases, sym}
use mathlib.Core.Path.{subst}
use libkatherine.Emu.{Stream, Stage}
use libkatherine.Emu.Generator.{emit, has_room, draw_hit}
use libkatherine.Emu.Pump.{pixels_step, finish, step, pump_loop, rewind, pump}

pub length_staged :
    (xs : List ℕ) (a b c d e f : ℕ) → length (xs ++ (a ∷ b ∷ c ∷ d ∷ e ∷ f ∷ [])) ≡ length xs + 6
length_staged xs a b c d e f = length-append xs (a ∷ b ∷ c ∷ d ∷ e ∷ f ∷ [])

pub draw_hit_buf : (s : Stream) (due : ℕ) → (draw_hit s due).1.buf ≡ s.buf
unfolding draw_hit
draw_hit_buf s due = ground arith

-- One for a stage whose next round may stage nothing.
abbrev silent : Stage → ℕ
silent Stage.new_frame = 0
silent Stage.start_lsb = 0
silent Stage.start_msb = 0
silent Stage.pixels = 1
silent Stage.end_lsb = 0
silent Stage.end_msb = 0
silent Stage.lost = 1
silent Stage.finished = 0
silent Stage.idle = 0

abbrev rounds : Stream → ℕ
rounds s = 2 * ((6144 - length s.buf) / 6) + silent s.stage

-- A round that goes on leaves fewer rounds.
step-rounds :
    (now : ℕ) (s s' : Stream) → has_room s ≡ true → step now s ≡ some s' → rounds s' < rounds s
unfolding step finish pixels_step emit has_room
step-rounds now s s' h e = grind (arith, length_staged, draw_hit_buf)

-- Nothing is left to do now: the stream is not armed, the buffer has no room, or the stage waits.
unfoldable pub IsResting : ℕ → Stream → Type 0
IsResting now s = ((s.armed && has_room s) ≡ false) ⊎ (step now s ≡ none)

room_of : (s : Stream) → (s.armed && has_room s) ≡ true → has_room s ≡ true
room_of s h = ground arith

pub pump_stays : (now : ℕ) (s : Stream) → pump_loop 0 now s ≡ s
unfolding pump_loop
pump_stays now s = refl

pub pump_ends :
    (fuel now : ℕ) (s : Stream) → (s.armed && has_room s) ≡ false → pump_loop (suc fuel) now s ≡ s
unfolding pump_loop
pump_ends fuel now s e = ground (arith)

pub pump_waits : (fuel now : ℕ) (s : Stream) → step now s ≡ none → pump_loop (suc fuel) now s ≡ s
unfolding pump_loop
pump_waits fuel now s e = ground (arith)

pub pump_goes :
    (fuel now : ℕ) (s s' : Stream)
    → (s.armed && has_room s) ≡ true
    → step now s ≡ some s'
    → pump_loop (suc fuel) now s ≡ pump_loop fuel now s'
unfolding pump_loop
pump_goes fuel now s s' e goes = ground (arith)

pump_loop-IsResting :
    (fuel now : ℕ) (s : Stream) → rounds s < fuel → IsResting now (pump_loop fuel now s)
unfolding IsResting
pump_loop-IsResting zero now s h = absurd (omega arith)
pump_loop-IsResting (suc fuel) now s h = elim (Bool-cases (s.armed && has_room s)) [
  | inl e ↦ elim (Option-cases (step now s)) [
    | inl stops ↦ subst (IsResting now) (sym (pump_waits fuel now s stops)) (inr stops)
    | inr (s', goes) ↦
        subst (IsResting now) (sym (pump_goes fuel now s s' e goes))
          (pump_loop-IsResting fuel now s' (omega (arith, step-rounds now s s' (room_of s e) goes)))
  ]
  | inr e ↦ subst (IsResting now) (sym (pump_ends fuel now s e)) (inl e)
]

silent_le : (stage : Stage) → silent stage ≤ 1
silent_le stage = ground arith

rounds_le : (s : Stream) → rounds s < 2050
rounds_le s = omega (arith, silent_le s.stage)

-- When the pump of the emulator returns, there is nothing left that it could do at that time: the
-- stream is no longer armed, the staging buffer is full, or the stage that is reached has nothing due.
-- The loop of the pump ends for every stream, within 2050 rounds.
pub pump-IsResting : (now : ℕ) (s : Stream) → IsResting now (pump now s)
unfolding pump
pump-IsResting now s = pump_loop-IsResting 2050 now (rewind s) (rounds_le (rewind s))
