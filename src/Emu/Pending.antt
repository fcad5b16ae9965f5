-- ===== src/Emu/Pending.antt =====
-- What the pump of the emulated readout in c/src/emu/emu_stream.c does to the data that are staged, and
-- what is handed over of them.
use libkatherine.Base.{ℕ, zero, suc, ◌≡◌, inl, inr, refl, arith, ap, ap₂}
use libkatherine.Base.{List, [], ◌∷◌, ◌++◌, length, ◌&&◌, some}
use libkatherine.Base.{Bool-cases, Option-cases, sym, ◌∙◌, drop}
use mathlib.Core.List.{append_assoc, append-nil}
use libkatherine.Base.{drop-append}
use mathlib.Core.Path.{subst}
use libkatherine.Emu.{Stream}
use libkatherine.Emu.Generator.{emit, has_room, draw_hit}
use libkatherine.Emu.Staging.{pump_ends, pump_waits, pump_goes, pump_stays}
use libkatherine.Emu.Tokens.{IsSound, step_pos, step-IsSound}
use libkatherine.Emu.Pump.{pixels_step, finish, step, pump_loop, rewind, pump}

abbrev pub pending : Stream → List ℕ
pending s = drop s.buf_pos s.buf

drop-length_append : (xs ys : List ℕ) → drop (length xs) (xs ++ ys) ≡ ys
drop-length_append [] ys = refl
drop-length_append (x ∷ xs) ys = drop-length_append xs ys

append_end : (xs : List ℕ) → xs ++ drop (length xs) xs ≡ xs
append_end [] = refl
append_end (x ∷ xs) = ap (◌∷◌ x) (append_end xs)

-- A round leaves what is staged in place.
step-buf :
    (now : ℕ) (s s' : Stream) → step now s ≡ some s' → s'.buf ≡ s.buf ++ drop (length s.buf) s'.buf
unfolding step finish pixels_step emit draw_hit
step-buf now s s' e = grind (arith, append_end, drop-length_append)

step-pending :
    (now : ℕ) (s s' : Stream)
    → IsSound s
    → step now s ≡ some s'
    → pending s' ≡ pending s ++ drop (length s.buf) s'.buf
step-pending now s s' h e =
    ap₂ drop (step_pos now s s' e) (step-buf now s s' e)
    ∙ drop-append s.buf_pos s.buf (drop (length s.buf) s'.buf) h.pos

-- What the rounds stage goes behind what is pending.
abbrev pub Follows : Stream → Stream → Type 0
Follows s s' = (more : List ℕ) × (pending s' ≡ pending s ++ more)

Follows-trans : (s s' s'' : Stream) → Follows s s' → Follows s' s'' → Follows s s''
Follows-trans s s' s'' (more, e) (more', e') =
    (more ++ more', e' ∙ ap (λ xs. xs ++ more') e ∙ append_assoc (pending s) more more')

-- What holds of a stream after rounds.
pub record Kept (s s' : Stream) : Type 0 where
  pub sound : IsSound s'
  pub follows : Follows s s'
  pub same_tokens : s'.tokens ≡ s.tokens
  pub same_frac : s'.token_frac ≡ s.token_frac

Kept-refl : (s : Stream) → IsSound s → Kept s s
Kept-refl s h = record {
  sound = h;
  follows = ([], sym (append-nil (pending s)));
  same_tokens = refl;
  same_frac = refl;
}

Kept-trans : (s s' s'' : Stream) → Kept s s' → Kept s' s'' → Kept s s''
Kept-trans s s' s'' k l = record {
  sound = l.sound;
  follows = Follows-trans s s' s'' k.follows l.follows;
  same_tokens = l.same_tokens ∙ k.same_tokens;
  same_frac = l.same_frac ∙ k.same_frac;
}

step_tokens : (now : ℕ) (s s' : Stream) → step now s ≡ some s' → s'.tokens ≡ s.tokens
unfolding step finish pixels_step emit draw_hit
step_tokens now s s' e = grind (arith)

step_frac : (now : ℕ) (s s' : Stream) → step now s ≡ some s' → s'.token_frac ≡ s.token_frac
unfolding step finish pixels_step emit draw_hit
step_frac now s s' e = grind (arith)

step-Kept : (now : ℕ) (s s' : Stream) → IsSound s → step now s ≡ some s' → Kept s s'
step-Kept now s s' h e = record {
  sound = step-IsSound now s s' h e;
  follows = (drop (length s.buf) s'.buf, step-pending now s s' h e);
  same_tokens = step_tokens now s s' e;
  same_frac = step_frac now s s' e;
}

pump_loop-Kept : (fuel now : ℕ) (s : Stream) → IsSound s → Kept s (pump_loop fuel now s)
pump_loop-Kept zero now s h = subst (Kept s) (sym (pump_stays now s)) (Kept-refl s h)
pump_loop-Kept (suc fuel) now s h = elim (Bool-cases (s.armed && has_room s)) [
  | inl e ↦ elim (Option-cases (step now s)) [
    | inl stops ↦ subst (Kept s) (sym (pump_waits fuel now s stops)) (Kept-refl s h)
    | inr (s', goes) ↦
        let k = step-Kept now s s' h goes in
        subst (Kept s) (sym (pump_goes fuel now s s' e goes))
          (Kept-trans s s' (pump_loop fuel now s') k (pump_loop-Kept fuel now s' k.sound))
  ]
  | inr e ↦ subst (Kept s) (sym (pump_ends fuel now s e)) (Kept-refl s h)
]

drop-length : (xs : List ℕ) → drop (length xs) xs ≡ []
drop-length [] = refl
drop-length (x ∷ xs) = drop-length xs

rewind-IsSound : (s : Stream) → IsSound s → IsSound (rewind s)
unfolding rewind
rewind-IsSound s h = ground arith

rewind-Kept : (s : Stream) → IsSound s → Kept s (rewind s)
unfolding rewind
rewind-Kept s h = record {
  sound = rewind-IsSound s h;
  follows = ([], ground (arith, drop-length s.buf, append-nil (pending s)));
  same_tokens = ground arith;
  same_frac = ground arith;
}

pub pump-Kept : (now : ℕ) (s : Stream) → IsSound s → Kept s (pump now s)
unfolding pump
pump-Kept now s h =
    let k = rewind-Kept s h in
    Kept-trans s (rewind s) (pump now s) k (pump_loop-Kept 2050 now (rewind s) k.sound)
