-- ===== src/Ksim/Daemon/Data.antt =====
-- The loops of tools/ksim/main.c that send what the emulated readout has for its client.
use libkatherine.Base.{ℕ, zero, suc, ◌+◌, ◌*◌, ◌≤◌, ◌<◌, ◌≡◌, arith}
use libkatherine.Base.{List, none, some, Option-cases, sym, inl, inr}
use mathlib.Core.Path.{subst}
use libkatherine.Emu.Commands.{crd_out}
use libkatherine.Emu.{Emu}
use libkatherine.Emu.Pump.{data_out, out_count}
use libkatherine.Ksim.Daemon.{
  send_crd, send_crds, Daemon, send_md, send_mds, md_datagram_max_bytes, data_left,
}
use libkatherine.Ksim.Daemon.Work.{IsBounded, bytes_left, pump-bytes_left}

-- The course of the loop: each datagram is sent, and then what the readout has after it, up to the
-- first EAGAIN.
pub data Sends : Daemon → Daemon → Type 0 where
  ends :
      (d : Daemon)
      → (data_out md_datagram_max_bytes d.emu).0 ≡ none
      → Sends d (record d { emu = (data_out md_datagram_max_bytes d.emu).1 })
  sends :
      (d d' : Daemon) (bytes : List ℕ)
      → (data_out md_datagram_max_bytes d.emu).0 ≡ some bytes
      → Sends (send_md bytes (record d { emu = (data_out md_datagram_max_bytes d.emu).1 })) d'
      → Sends d d'

-- Six bytes are handed over at least.
data_out-less :
    (cap : ℕ) (emu : Emu) (bytes : List ℕ)
    → IsBounded emu.stream
    → (data_out cap emu).0 ≡ some bytes
    → IsBounded (data_out cap emu).1.stream
      × (bytes_left (data_out cap emu).1.stream + 6 ≤ bytes_left emu.stream)
unfolding data_out out_count
data_out-less cap emu bytes b e = grind (arith, pump-bytes_left emu.now_ns emu.stream b)

send_md-emu : (bytes : List ℕ) (d : Daemon) → (send_md bytes d).emu ≡ d.emu
unfolding send_md
send_md-emu bytes d = ground arith

send_mds_ends :
    (fuel : ℕ) (d : Daemon)
    → (data_out md_datagram_max_bytes d.emu).0 ≡ none
    → send_mds (suc fuel) d ≡ record d { emu = (data_out md_datagram_max_bytes d.emu).1 }
unfolding send_mds
send_mds_ends fuel d e = ground arith

send_mds_sends :
    (fuel : ℕ) (d : Daemon) (bytes : List ℕ)
    → (data_out md_datagram_max_bytes d.emu).0 ≡ some bytes
    → send_mds (suc fuel) d
      ≡ send_mds fuel (send_md bytes (record d { emu = (data_out md_datagram_max_bytes d.emu).1 }))
unfolding send_mds
send_mds_sends fuel d bytes e = ground arith

send_mds_within :
    (fuel : ℕ) (d : Daemon)
    → IsBounded d.emu.stream
    → bytes_left d.emu.stream < 6 * fuel
    → Sends d (send_mds fuel d)
send_mds_within zero d b h = absurd (omega arith)
send_mds_within (suc fuel) d b h = elim (Option-cases (data_out md_datagram_max_bytes d.emu).0) [
  | inl e ↦ subst (Sends d) (sym (send_mds_ends fuel d e)) (Sends.ends d e)
  | inr (bytes, e) ↦
      let (bounded, less) = data_out-less md_datagram_max_bytes d.emu bytes b e in
      let d' = send_md bytes (record d { emu = (data_out md_datagram_max_bytes d.emu).1 }) in
      let same = send_md-emu bytes (record d { emu = (data_out md_datagram_max_bytes d.emu).1 }) in
      let bounded' : IsBounded d'.emu.stream = subst (λ e. IsBounded e.stream) (sym same) bounded in
      let less' : bytes_left d'.emu.stream < 6 * fuel =
        subst (λ e. bytes_left e.stream < 6 * fuel) (sym same) (omega (arith, less, h)) in
      subst (Sends d) (sym (send_mds_sends fuel d bytes e))
        (Sends.sends d (send_mds fuel d') bytes e (send_mds_within fuel d' bounded' less'))
]

-- The loop of the daemon over the measurement data ends, where the counters of the stream are those of
-- 32-bit integers, a frame is to come unless the stage is idle, and no more was handed over than was
-- staged: with as many rounds as data are staged and rounds of work are left, and one more, the loop
-- runs its course, up to the first EAGAIN of the emulated readout, and has that for its result.
pub send_mds-Sends :
    (d : Daemon) → IsBounded d.emu.stream → Sends d (send_mds (data_left d.emu.stream + 1) d)
send_mds-Sends d b = send_mds_within (data_left d.emu.stream + 1) d b (omega arith)

-- The course of the loop over the responses: each is sent, or dropped, up to the first EAGAIN.
pub data Responds : Daemon → Daemon → Type 0 where
  ends : (d : Daemon) → (crd_out d.emu).0 ≡ none → Responds d d
  responds :
      (d d' : Daemon) (crd : List ℕ)
      → (crd_out d.emu).0 ≡ some crd
      → Responds (send_crd crd (record d { emu = (crd_out d.emu).1 })) d'
      → Responds d d'

crd_out-less :
    (emu : Emu) (crd : List ℕ)
    → (crd_out emu).0 ≡ some crd
    → (crd_out emu).1.crd_count < emu.crd_count
unfolding crd_out
crd_out-less emu crd e = ground arith

send_crd-emu : (crd : List ℕ) (d : Daemon) → (send_crd crd d).emu ≡ d.emu
unfolding send_crd
send_crd-emu crd d = ground arith

pub send_crds_ends : (fuel : ℕ) (d : Daemon) → (crd_out d.emu).0 ≡ none → send_crds (suc fuel) d ≡ d
unfolding send_crds
send_crds_ends fuel d e = ground arith

pub send_crds_sends :
    (fuel : ℕ) (d : Daemon) (crd : List ℕ)
    → (crd_out d.emu).0 ≡ some crd
    → send_crds (suc fuel) d ≡ send_crds fuel (send_crd crd (record d { emu = (crd_out d.emu).1 }))
unfolding send_crds
send_crds_sends fuel d crd e = ground arith

send_crds_within : (fuel : ℕ) (d : Daemon) → d.emu.crd_count < fuel → Responds d (send_crds fuel d)
send_crds_within zero d h = absurd (omega arith)
send_crds_within (suc fuel) d h = elim (Option-cases (crd_out d.emu).0) [
  | inl e ↦ subst (Responds d) (sym (send_crds_ends fuel d e)) (Responds.ends d e)
  | inr (crd, e) ↦
      let d' = send_crd crd (record d { emu = (crd_out d.emu).1 }) in
      let same = send_crd-emu crd (record d { emu = (crd_out d.emu).1 }) in
      let less : d'.emu.crd_count < fuel =
        subst (λ e. e.crd_count < fuel) (sym same) (omega (arith, crd_out-less d.emu crd e, h)) in
      subst (Responds d) (sym (send_crds_sends fuel d crd e))
        (Responds.responds d (send_crds fuel d') crd e (send_crds_within fuel d' less))
]

-- The loop of the daemon over the response datagrams ends, with as many rounds as responses are
-- queued, and one more: it runs its course, up to the first EAGAIN of the emulated readout.
pub send_crds-Responds : (d : Daemon) → Responds d (send_crds (d.emu.crd_count + 1) d)
send_crds-Responds d = send_crds_within (d.emu.crd_count + 1) d (omega arith)
