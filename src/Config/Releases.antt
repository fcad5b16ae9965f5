-- ===== src/Config/Releases.antt =====
-- Every command of c/src/config.c on a pinned control socket, whatever the link does: the mutex is
-- released again on every path, and the session keeps its remote.
use libkatherine.Base.{ℕ, zero, suc, ◌+◌, ◌≡◌, refl, ◌∙◌, arith, Bool, true, false}
use libkatherine.Base.{not, ◌&&◌, if◌then◌else◌}
use libkatherine.Udp.{Udp, Result, err, ok, recv}
use libkatherine.Udp.Receive.{recv-KeepsSession}
use libkatherine.Session.{Session, ◌>>◌, pure, cmd, wait_ack}
use libkatherine.Session.Balance.{
  Keeps, Keeps-bind, Keeps-cmd, Keeps-wait_ack, Keeps-wait_ack_retry,
}
use libkatherine.Session.Balance.{Keeps-locked, Released, Released-trans, released}
use libkatherine.Command.{cmd6, cmd60, cmd64_i64, cmd6_i64}
use libkatherine.Command.CmdType
use libkatherine.Command.HwCmdType
use libkatherine.Base.{◌*◌, bit_and, ◌>>>◌}
use libkatherine.PxConfig.{Words}
use libkatherine.Config.{
  TestPulseConfig, acknowledged, set_acq_time, set_dacs, set_test_pulses, hw_command, dacs_loop,
  is_refused,
}
use libkatherine.Config.Upload.{
  set_all_pixel_config, attempt_loop, upload, recover, drain, flood, send_chunks, filler,
}

pub Keeps-then : (a b : Session) → Keeps a → Keeps b → Keeps (a >> b)
Keeps-then a b ka kb = Keeps-bind a (λ _. b) ka (λ _. kb)

pub Keeps-pure : Keeps (pure tt)
Keeps-pure u p = released

pub Keeps-if : (b : Bool) (x y : Session) → Keeps x → Keeps y → Keeps (if b then x else y)
Keeps-if true x y kx ky = kx
Keeps-if false x y kx ky = ky

pub Keeps-acknowledged : (command : Session) → Keeps command → Keeps (acknowledged command)
unfolding acknowledged
Keeps-acknowledged command k = Keeps-then command wait_ack k Keeps-wait_ack

Keeps-cmd64_i64 : (a b v : ℕ) → Keeps (cmd64_i64 a b v)
unfolding cmd64_i64
Keeps-cmd64_i64 a b v = Keeps-cmd _

Keeps-cmd6_i64 : (a v : ℕ) → Keeps (cmd6_i64 a v)
unfolding cmd6_i64
Keeps-cmd6_i64 a v = Keeps-cmd _

Keeps-hw_command : (hw : ℕ) → Keeps (hw_command hw)
unfolding hw_command cmd60
Keeps-hw_command hw = Keeps-acknowledged _ (Keeps-cmd _)

Keeps-dacs_loop : (left i : ℕ) (array : ℕ → ℕ) → Keeps (dacs_loop left i array)
unfolding dacs_loop
Keeps-dacs_loop zero i array = Keeps-pure
Keeps-dacs_loop (suc left) i array =
    Keeps-then _ _ (Keeps-acknowledged _ (Keeps-cmd64_i64 _ _ _))
      (Keeps-dacs_loop left (i + 1) array)

pub Keeps-set_dacs : (array : ℕ → ℕ) → Keeps (set_dacs array)
unfolding set_dacs
Keeps-set_dacs array =
    Keeps-locked _ (Keeps-then _ _ (Keeps-dacs_loop 18 0 array) (Keeps-hw_command _))

Keeps-acknowledged_i64 : (a v : ℕ) → Keeps (acknowledged (cmd6_i64 a v))
Keeps-acknowledged_i64 a v = Keeps-acknowledged (cmd6_i64 a v) (Keeps-cmd6_i64 a v)

pub Keeps-set_acq_time : (acqt : ℕ) → Keeps (set_acq_time acqt)
unfolding set_acq_time
Keeps-set_acq_time acqt =
    let lsb = bit_and acqt 0x00000000FFFFFFFF in
    let msb = bit_and acqt 0xFFFFFFFF00000000 >>> 32 in
    let a = acknowledged (cmd6_i64 CmdType.acquisition_time_lsb lsb) in
    let b = acknowledged (cmd6_i64 CmdType.acquisition_time_msb msb) in
    Keeps-locked (a >> b) (
      Keeps-then a b (Keeps-acknowledged_i64 CmdType.acquisition_time_lsb lsb)
        (Keeps-acknowledged_i64 CmdType.acquisition_time_msb msb))

pub Keeps-set_test_pulses : (tp : TestPulseConfig) → Keeps (set_test_pulses tp)
unfolding set_test_pulses
Keeps-set_test_pulses tp =
    Keeps-if (tp.enabled && not tp.external && is_refused tp) _ _ (λ u p. released)
      (Keeps-locked _ (Keeps-then _ _ (Keeps-cmd _) (Keeps-wait_ack_retry 50)))

Keeps-send_chunks : (left i : ℕ) (words : Words) → Keeps (send_chunks left i words)
unfolding send_chunks
Keeps-send_chunks zero i words = Keeps-pure
Keeps-send_chunks (suc left) i words =
    Keeps-then _ _ (Keeps-cmd _) (Keeps-send_chunks left (i + 1) words)

flood-Released : (left : ℕ) (u : Udp) → u.remote_pinned ≡ true → Released u (flood left u)
unfolding flood
flood-Released zero u p = released
flood-Released (suc left) u p =
    let first = Keeps-cmd filler u p in
    Released-trans first (flood-Released left (cmd filler u).1 (first.pinned ∙ p))

drain-Released : (left : ℕ) (u : Udp) → u.remote_pinned ≡ true → Released u (drain left u)
unfolding drain
drain-Released zero u p = released
drain-Released (suc left) u p =
    let k = recv-KeepsSession 1024 u p in
    let first : Released u (recv 1024 u).1 = record {
      remote = k.remote;
      pinned = k.pinned;
      held = k.held;
    } in
    ground
      (arith, first, Released-trans first (drain-Released left (recv 1024 u).1 (first.pinned ∙ p)))

recover-Released :
    (has_memory : Bool) (u : Udp) → u.remote_pinned ≡ true → Released u (recover has_memory u)
unfolding recover
recover-Released true u p =
    let first = flood-Released (3 * 64) u p in
    Released-trans first (drain-Released 512 (flood (3 * 64) u) (first.pinned ∙ p))
recover-Released false u p = released

Keeps-upload : (words : Words) → Keeps (upload words)
unfolding upload
Keeps-upload words = Keeps-then _ _ (Keeps-send_chunks 64 0 words) (Keeps-wait_ack_retry 10)

Keeps-cmd6 : (val6 : ℕ) → Keeps (cmd6 val6)
unfolding cmd6
Keeps-cmd6 val6 = Keeps-cmd _

module _ (has_memory : ℕ → Bool) (words : Words) where
  abbrev KeepsAttempts : ℕ → Type 0
  KeepsAttempts left =
      (last : Result (Unit {0})) (u : Udp)
      → u.remote_pinned ≡ true
      → Released u (attempt_loop has_memory words left last u).1

  after_upload :
      (left : ℕ) (last : Result (Unit {0})) (u u₁ u₂ : Udp) (r r' : Result (Unit {0}))
      → cmd6 CmdType.set_all_pixel_config u ≡ (r, u₁)
      → upload words u₁ ≡ (r', u₂)
      → u.remote_pinned ≡ true
      → Released u u₁
      → Released u u₂
      → KeepsAttempts left
      → Released u (attempt_loop has_memory words (suc left) last u).1
  unfolding attempt_loop
  after_upload left last u u₁ u₂ (err e) r' e₁ e₂ p h₁ h₂ later =
      ground (arith, e₁, Released-trans h₁ (later (err e) u₁ (h₁.pinned ∙ p)))
  after_upload left last u u₁ u₂ (ok a) (ok b) e₁ e₂ p h₁ h₂ later = ground (arith, e₁, e₂, h₂)
  after_upload left last u u₁ u₂ (ok a) (err e) e₁ e₂ p h₁ h₂ later =
      let h₃ = Released-trans h₂ (recover-Released (has_memory left) u₂ (h₂.pinned ∙ p)) in
      let u₃ = recover (has_memory left) u₂ in
      ground (arith, e₁, e₂, Released-trans h₃ (later (err e) u₃ (h₃.pinned ∙ p)))

  attempt_loop-Released : (left : ℕ) → KeepsAttempts left
  unfolding attempt_loop
  attempt_loop-Released zero last u p = released
  attempt_loop-Released (suc left) last u p =
      let r = cmd6 CmdType.set_all_pixel_config u in
      let h = Keeps-cmd6 CmdType.set_all_pixel_config u p in
      let r' = upload words r.1 in
      after_upload left last u r.1 r'.1 r.0 r'.0 refl refl p h
        (Released-trans h (Keeps-upload words r.1 (h.pinned ∙ p))) (attempt_loop-Released left)

  -- The upload of the matrix, in all its attempts and recoveries, releases the mutex again.
  pub Keeps-set_all_pixel_config : Keeps (set_all_pixel_config has_memory words)
  unfolding set_all_pixel_config
  Keeps-set_all_pixel_config =
      let a = hw_command HwCmdType.reset_matrix_sequential in
      let b = hw_command HwCmdType.load_pixel_register_configuration in
      Keeps-locked (attempt_loop has_memory words 10 (ok tt) >> (a >> b)) (
        Keeps-then (attempt_loop has_memory words 10 (ok tt)) (a >> b)
          (attempt_loop-Released 10 (ok tt))
          (Keeps-then a b (Keeps-hw_command HwCmdType.reset_matrix_sequential)
            (Keeps-hw_command HwCmdType.load_pixel_register_configuration)))
