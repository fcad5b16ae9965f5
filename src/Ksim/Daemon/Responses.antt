-- ===== src/Ksim/Daemon/Responses.antt =====
-- The responses of the emulated readout, which tools/ksim/main.c sends to its client.
use libkatherine.Base.{ℕ, zero, suc, ◌+◌, ◌-◌, ◌%◌, ◌<◌, ◌≤◌, ◌≡◌, refl, arith, ap, ap₂, ◌∙◌, sym}
use libkatherine.Base.{List, [], ◌∷◌, some}
use mathlib.Core.Path.{subst}
use libkatherine.Udp.{send_exact, send_loop}
use libkatherine.Session.Dialogue.{push}
use libkatherine.Session.Talk.{listed}
use libkatherine.Emu.{Emu}
use libkatherine.Emu.Commands.{crd_out}
use libkatherine.Emu.Configures.{waiting, slot_at}
use libkatherine.Ksim.Daemon.{Daemon, send_crd, send_crds}
use libkatherine.Ksim.Daemon.Data.{send_crds_ends, send_crds_sends}

-- Every response that waits is due.
pub record AllDue (emu : Emu) : Type 0 where
  pub head_in : emu.crd_head < 256
  pub due : (k : ℕ) → k < emu.crd_count → (emu.crd ((emu.crd_head + k) % 256)).due_ns ≤ emu.now_ns

-- The readout without its first response.
abbrev popped : Emu → Emu
popped emu = record emu { crd_head = (emu.crd_head + 1) % 256; crd_count = emu.crd_count - 1 }

next_slot : (head k : ℕ) → ((head + 1) % 256 + k) % 256 ≡ (head + (k + 1)) % 256
next_slot head k = omega arith

popped-AllDue : (emu : Emu) → AllDue emu → AllDue (popped emu)
popped-AllDue emu a = record {
  head_in = omega arith;
  due = λ k h.
      subst (λ j. (emu.crd j).due_ns ≤ emu.now_ns) (sym (next_slot emu.crd_head k))
        (a.due (k + 1) (omega (arith, h)));
}

listed_shift :
    (n i : ℕ) (f g : ℕ → List ℕ) → ((k : ℕ) → f (k + 1) ≡ g k) → listed (i + 1) n f ≡ listed i n g
listed_shift zero i f g e = refl
listed_shift (suc n) i f g e = ap₂ (λ x xs. x ∷ xs) (e i) (listed_shift n (i + 1) f g e)

crd_out_due :
    (emu : Emu) (n : ℕ)
    → AllDue emu
    → emu.crd_count ≡ suc n
    → crd_out emu ≡ (some (slot_at emu 0), popped emu)
unfolding crd_out
crd_out_due emu n a e =
    let same : (emu.crd_head + 0) % 256 ≡ emu.crd_head = omega (arith, a.head_in) in
    ground (arith, same, a.due 0 (omega (arith, e)))

waiting-popped :
    (emu : Emu) (n : ℕ) → emu.crd_count ≡ suc n → waiting emu ≡ slot_at emu 0 ∷ waiting (popped emu)
waiting-popped emu n e =
    let less : emu.crd_count - 1 ≡ n = omega (arith, e) in
    ap (λ c. listed 0 c (slot_at emu)) e
    ∙ ap (λ t. slot_at emu 0 ∷ t)
        (listed_shift n 0 (slot_at emu) (slot_at (popped emu))
            (λ k. ap (λ j. (emu.crd j).bytes) (sym (next_slot emu.crd_head k)))
          ∙ ap (λ c. listed 0 c (slot_at (popped emu))) (sym less))

-- A response that is not dropped goes to the remote, and nothing else of the session changes.
send_crd-sent :
    (crd : List ℕ) (d : Daemon)
    → d.options.drop_crd ≡ 0
    → d.ctl_udp.outcomes ≡ []
    → (send_crd crd d).ctl_udp
      ≡ record d.ctl_udp { outcomes = []; sent = (d.ctl_udp.addr_remote, crd) ∷ d.ctl_udp.sent }
unfolding send_crd send_exact send_loop
send_crd-sent crd d keeps takes = ground (arith, keeps, takes)

-- The daemon after its first response.
abbrev first_sent : Daemon → Daemon
first_sent d = send_crd (slot_at d.emu 0) (record d { emu = popped d.emu })

send_crds_first :
    (fuel n : ℕ) (d : Daemon)
    → AllDue d.emu
    → d.emu.crd_count ≡ suc n
    → send_crds (suc fuel) d ≡ send_crds fuel (first_sent d)
send_crds_first fuel n d a e =
    let out = crd_out_due d.emu n a e in
    send_crds_sends fuel d (slot_at d.emu 0) (ap (λ r. r.0) out)
    ∙ ap (λ r. send_crds fuel (send_crd (slot_at d.emu 0) (record d { emu = r.1 }))) out

send_none : (fuel : ℕ) (d : Daemon) → d.emu.crd_count ≡ 0 → send_crds (suc fuel) d ≡ d
unfolding crd_out
send_none fuel d e = send_crds_ends fuel d (ground (arith, e))

first_sent-emu : (d : Daemon) → (first_sent d).emu ≡ popped d.emu
unfolding send_crd
first_sent-emu d = refl

first_sent-options : (d : Daemon) → (first_sent d).options ≡ d.options
unfolding send_crd
first_sent-options d = refl

send_all :
    (n fuel : ℕ) (d : Daemon)
    → d.emu.crd_count ≡ n
    → n < fuel
    → d.options.drop_crd ≡ 0
    → d.ctl_udp.outcomes ≡ []
    → AllDue d.emu
    → (send_crds fuel d).ctl_udp.sent ≡ push d.ctl_udp.addr_remote (waiting d.emu) d.ctl_udp.sent
send_all n zero d e h keeps takes a = absurd (omega (arith, h))
send_all zero (suc fuel) d e h keeps takes a =
    ap (λ d. d.ctl_udp.sent) (send_none fuel d e)
    ∙ ap (λ c. push d.ctl_udp.addr_remote (listed 0 c (slot_at d.emu)) d.ctl_udp.sent) (sym e)
send_all (suc n) (suc fuel) d e h keeps takes a =
    let d' = first_sent d in
    let remote = d.ctl_udp.addr_remote in
    let udp = send_crd-sent (slot_at d.emu 0) (record d { emu = popped d.emu }) keeps takes in
    let due = subst AllDue (sym (first_sent-emu d)) (popped-AllDue d.emu a) in
    let count : d'.emu.crd_count ≡ n = ap Emu.crd_count (first_sent-emu d) ∙ omega (arith, e) in
    let rest =
      send_all n fuel d' count (omega (arith, h))
        (ap (λ o. o.drop_crd) (first_sent-options d) ∙ keeps) (ap (λ u. u.outcomes) udp) due in
    ap (λ d. d.ctl_udp.sent) (send_crds_first fuel n d a e)
    ∙ rest
    ∙ ap₂ (λ u emu. push u.addr_remote (waiting emu) u.sent) udp (first_sent-emu d)
    ∙ ap (λ xs. push remote xs d.ctl_udp.sent) (sym (waiting-popped d.emu n e))

-- A daemon that drops no response, over a link that takes every datagram: the loop over the
-- responses sends all that wait in the emulated readout to the remote of the control socket, each
-- once and in the order in which they were queued, where all of them are due and the index of the
-- ring is in range.
pub send_crds-waiting :
    (d : Daemon)
    → d.options.drop_crd ≡ 0
    → d.ctl_udp.outcomes ≡ []
    → AllDue d.emu
    → (send_crds (d.emu.crd_count + 1) d).ctl_udp.sent
      ≡ push d.ctl_udp.addr_remote (waiting d.emu) d.ctl_udp.sent
send_crds-waiting d = send_all d.emu.crd_count (d.emu.crd_count + 1) d refl (omega arith)
