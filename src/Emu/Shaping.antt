-- ===== src/Emu/Shaping.antt =====
-- The bandwidth of the emulated readout: `katherine_emu_data_out` in c/src/emu/emu_stream.c and
-- `katherine_emu_advance` in c/src/emu/emulator.c, in any order.
use libkatherine.Base.{ℕ, ◌+◌, ◌*◌, ◌/◌, ◌<◌, ◌≤◌, ◌≡◌, refl, arith, ap}
use libkatherine.Base.{List, [], ◌∷◌, ◌++◌, length, length-append, sym, ◌∙◌}
use mathlib.Core.Path.{subst}
use native.Mathlib.Nat.{add-mul, mul_comm}
use libkatherine.Emu.{Emu, Profile}
use libkatherine.Emu.Tokens.{IsSound, advance-IsSound, advance_paid}
use libkatherine.Emu.Handover.{given, data_out-HandsOver}
use libkatherine.Emu.Pump.{data_out}
use libkatherine.Emu.Commands.{advance}

-- What a host does with the data plane: it lets time pass, or takes data into a buffer.
pub data Use : Type 0 where
  wait : ℕ → Use
  take_data : ℕ → Use

-- All the bytes that are handed over, in order.
unfoldable pub received : List Use → Emu → List ℕ
received [] emu = []
received (Use.wait ns ∷ uses) emu = received uses (advance ns emu)
received (Use.take_data room ∷ uses) emu =
    given (data_out room emu).0 ++ received uses (data_out room emu).1

-- How much time passes.
unfoldable pub elapsed : List Use → ℕ
elapsed [] = 0
elapsed (Use.wait ns ∷ uses) = ns + elapsed uses
elapsed (Use.take_data room ∷ uses) = elapsed uses

data_out_profile : (room : ℕ) (emu : Emu) → (data_out room emu).1.profile ≡ emu.profile
unfolding data_out
data_out_profile room emu = ground arith

-- Of a billion parts of a token each.
received_paid :
    (uses : List Use) (emu : Emu) (rate : ℕ)
    → emu.profile.shape_bytes_per_s ≡ rate
    → 0 < rate
    → IsSound emu.stream
    → 1000000000 * length (received uses emu)
      ≤ 1000000000 * emu.stream.tokens + emu.stream.token_frac + elapsed uses * rate
unfolding received elapsed advance
received_paid [] emu rate e pos h = omega arith
received_paid (Use.wait ns ∷ uses) emu rate e pos h =
    let shape = emu.profile.shape_bytes_per_s in
    let same : shape * ns ≡ rate * ns = ap (λ r. r * ns) e in
    omega (
      arith,
      advance_paid shape ns emu.stream h (subst (λ r. 0 < r) (sym e) pos),
      received_paid uses (advance ns emu) rate e pos (advance-IsSound shape ns emu.stream h),
      same,
      add-mul ns (elapsed uses) rate,
      mul_comm ns shape,
      mul_comm ns rate,
    )
received_paid (Use.take_data room ∷ uses) emu rate e pos h =
    let hands = data_out-HandsOver room emu h in
    ground (
      arith,
      hands,
      length-append (given (data_out room emu).0) (received uses (data_out room emu).1),
      received_paid uses (data_out room emu).1 rate
          (ap Profile.shape_bytes_per_s (data_out_profile room emu) ∙ e) pos hands.sound,
    )

-- However the taking of data and the passing of time are interleaved, an emulated readout that is
-- shaped to a rate which is not 0 hands over no more bytes than the tokens that its bucket held at the start
-- and one for each byte that the rate allows in the time that passes. Its stream is sound at the start.
pub length-received :
    (uses : List Use) (emu : Emu)
    → 0 < emu.profile.shape_bytes_per_s
    → IsSound emu.stream
    → length (received uses emu)
      ≤ emu.stream.tokens
        + (emu.stream.token_frac + elapsed uses * emu.profile.shape_bytes_per_s) / 1000000000
length-received uses emu pos h =
    omega (arith, received_paid uses emu emu.profile.shape_bytes_per_s refl pos h)
