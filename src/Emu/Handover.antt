-- ===== src/Emu/Handover.antt =====
-- What the data plane of the emulated readout hands over: `katherine_emu_data_out` in
-- c/src/emu/emu_stream.c, and `katherine_emu_advance` in c/src/emu/emulator.c.
use libkatherine.Base.{ℕ, ◌+◌, ◌-◌, ◌%◌, ◌≤◌, ◌≡◌, ◌⊎◌, inl, inr, refl, arith}
use libkatherine.Base.{List, [], ◌++◌, length, Option, none, some}
use libkatherine.Base.{if◌then◌else◌, sym, ◌∙◌, take, ◌==◌}
use libkatherine.Base.{length-take, length-drop}
use mathlib.Core.List.{append-nil}
use libkatherine.Base.{take-drop, drop-drop}
use mathlib.Core.Path.{subst}
use libkatherine.Emu.{Emu, Stream}
use libkatherine.Emu.Tokens.{IsSound}
use libkatherine.Emu.Pending.{Follows, pending, Kept, pump-Kept}
use libkatherine.Emu.Pump.{pump, out_count, data_out}

-- The bytes of an answer.
abbrev pub given : Option (List ℕ) → List ℕ
given none = []
given (some bytes) = bytes

-- What it means that `out` is handed over to a buffer of `cap` bytes, from a stream `s` that the pump
-- makes `p` and that is then `s'`: the bytes are whole data and fit, with what is left they are what
-- is pending in `p`, which begins with what was pending in `s`, and a shaped stream pays one token for
-- each.
pub record HandsOver (cap rate : ℕ) (s p s' : Stream) (out : List ℕ) : Type 0 where
  pub whole : length out % 6 ≡ 0
  pub fits : length out ≤ cap
  pub in_order : out ++ pending s' ≡ pending p
  pub produced : Follows s p
  pub paid : (rate ≡ 0) ⊎ (s'.tokens + length out ≡ s.tokens)
  pub same_frac : s'.token_frac ≡ s.token_frac
  pub sound : IsSound s'

out_count_le :
    (rate cap : ℕ) (s : Stream)
    → (out_count rate cap s ≤ cap) × (out_count rate cap s ≤ length s.buf - s.buf_pos)
unfolding out_count
out_count_le rate cap s = ground arith

out_count_paid : (rate cap : ℕ) (s : Stream) → (rate ≡ 0) ⊎ (out_count rate cap s ≤ s.tokens)
unfolding out_count
out_count_paid rate cap s = ground arith

out_count_whole : (rate cap : ℕ) (s : Stream) → out_count rate cap s % 6 ≡ 0
unfolding out_count
out_count_whole rate cap s = ground arith

abbrev taken : (rate count : ℕ) → Stream → Stream
taken rate count s = record s {
  buf_pos = s.buf_pos + count;
  tokens = if rate == 0 then s.tokens else s.tokens - count;
}

taken-HandsOver :
    (cap rate count : ℕ) (s : Stream)
    → IsSound s
    → count % 6 ≡ 0
    → count ≤ cap
    → count ≤ length s.buf - s.buf_pos
    → (rate ≡ 0) ⊎ (count ≤ s.tokens)
    → HandsOver cap rate s s (taken rate count s) (take count (pending s))
taken-HandsOver cap rate count s h whole fits staged paid =
    let size = length-take count (pending s) in
    let left = length-drop s.buf_pos s.buf in
    record {
      whole = ground (arith, size, left);
      fits = ground (arith, size, left);
      in_order = ground (arith, take-drop count (pending s), drop-drop count s.buf_pos s.buf);
      produced = ([], sym (append-nil (pending s)));
      paid = ground (arith, size, left);
      same_frac = refl;
      sound = ground arith;
    }

nothing-HandsOver : (cap rate : ℕ) (s : Stream) → IsSound s → HandsOver cap rate s s s []
nothing-HandsOver cap rate s h = record {
  whole = refl;
  fits = omega arith;
  in_order = refl;
  produced = ([], sym (append-nil (pending s)));
  paid = inr (omega arith);
  same_frac = refl;
  sound = h;
}

after_pump :
    (cap rate : ℕ) (s p s' : Stream) (out : List ℕ)
    → Kept s p
    → HandsOver cap rate p p s' out
    → HandsOver cap rate s p s' out
after_pump cap rate s p s' out k g = record {
  whole = g.whole;
  fits = g.fits;
  in_order = g.in_order;
  produced = k.follows;
  paid = ground (arith, k.same_tokens);
  same_frac = g.same_frac ∙ k.same_frac;
  sound = g.sound;
}

data_out_lem :
    (cap : ℕ) (emu : Emu)
    → let s = pump emu.now_ns emu.stream in
      let rate = emu.profile.shape_bytes_per_s in
      let count = out_count rate cap s in
      ((count ≡ 0) × (data_out cap emu ≡ (none, record emu { stream = s })))
      ⊎ (data_out cap emu
          ≡ (some (take count (pending s)), record emu { stream = taken rate count s }))
unfolding data_out
data_out_lem cap emu = ground arith

-- Taking data from the emulator, into a buffer of any size, hands over whole data that fit it. With
-- what stays staged they are what is staged once the pump has caught up with the clock, in its order, and
-- that begins with what was staged before: nothing is lost, repeated or reordered. A shaped stream
-- pays one token for each byte, and the stream stays sound, as it was before.
pub data_out-HandsOver :
    (cap : ℕ) (emu : Emu)
    → IsSound emu.stream
    → HandsOver cap emu.profile.shape_bytes_per_s emu.stream
        (pump emu.now_ns emu.stream)
        (data_out cap emu).1.stream
        (given (data_out cap emu).0)
data_out-HandsOver cap emu h =
    let s = pump emu.now_ns emu.stream in
    let rate = emu.profile.shape_bytes_per_s in
    let count = out_count rate cap s in
    let kept = pump-Kept emu.now_ns emu.stream h in
    let Goal : Option (List ℕ) × Emu → Type 0 =
      λ r. HandsOver cap rate emu.stream s r.1.stream (given r.0) in
    elim (data_out_lem cap emu) [
      | inl (none_left, e) ↦
          subst Goal (sym e)
            (after_pump cap rate emu.stream s s [] kept (nothing-HandsOver cap rate s kept.sound))
      | inr e ↦
          let hands =
            taken-HandsOver cap rate count s kept.sound (out_count_whole rate cap s)
              (out_count_le rate cap s).0 (out_count_le rate cap s).1 (out_count_paid rate cap s) in
          let after =
            after_pump cap rate emu.stream s (taken rate count s) (take count (pending s)) in
          subst Goal (sym e) (after kept hands)
    ]
