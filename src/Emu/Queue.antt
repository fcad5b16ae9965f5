-- ===== src/Emu/Queue.antt =====
-- The response queue of the emulated readout, as the bounded queue of a datagram socket.
use libkatherine.Base.{
  ℕ, zero, suc, ◌+◌, ◌-◌, ◌%◌, ◌<◌, ◌≤◌, ◌≡◌, ◌≢◌, refl, sym, ap, ap₂, ◌∙◌, arith,
}
use libkatherine.Base.{
  List, [], ◌∷◌, ◌++◌, length, ◌==◌, ltb, if◌then◌else◌, Option, none, some, u64,
}
use libkatherine.Emu.{Emu, Profile, Crd}
use libkatherine.Emu.Prng.{prng_below}
use libkatherine.Emu.Ring.{ring, length-ring, GoesRound, ring_wrapped, ring-store}
use libkatherine.Emu.Respond.{queue_crd}
use libkatherine.Emu.Commands.{crd_out, advance}

pub goes_256 : GoesRound 256
goes_256 = record {
  next = λ h k e. omega arith;
  apart = λ h i n lt small e. omega arith;
  small = λ h lt. omega arith;
  twice = λ h. omega arith;
}

-- The responses that wait, oldest first.
abbrev pub waiting : Emu → List Crd
waiting emu = ring 256 emu.crd emu.crd_head emu.crd_count

pub record IsQueue (emu : Emu) : Type 0 where
  pub head_in : emu.crd_head < 256
  pub count_in : emu.crd_count ≤ 256

-- A bounded queue of responses under a clock: what it holds, oldest first, and how many it has
-- dropped.
pub record Socket : Type 0 where
  pub queue : List Crd
  pub dropped : ℕ

-- A response to a full queue is dropped.
unfoldable pub post : Crd → Socket → Socket
post crd s =
    if length s.queue == 256
    then record s { dropped = u64 (s.dropped + 1) }
    else record s { queue = s.queue ++ (crd ∷ []) }

first_due : ℕ → List Crd → Option (List ℕ) × List Crd
first_due now [] = (none, [])
first_due now (crd ∷ rest) =
    if ltb now crd.due_ns then (none, crd ∷ rest) else (some crd.bytes, rest)

-- The oldest response, if it is due.
unfoldable pub fetch : ℕ → Socket → Option (List ℕ) × Socket
unfolding first_due
fetch now s = let (r, rest) = first_due now s.queue in (r, record s { queue = rest })

abbrev pub socket : Emu → Socket
socket emu = record { queue = waiting emu; dropped = emu.crd_dropped }

abbrev pub next_crd : List ℕ → ℕ → Emu → Crd
next_crd bytes apply_ns emu = record {
  due_ns = u64 (
      emu.now_ns
      + emu.profile.ack_latency_ns
      + (prng_below emu.jitter_rng (u64 (emu.profile.ack_jitter_ns + 1))).0
      + apply_ns);
  bytes = bytes;
}

pub queue_crd-IsQueue :
    (bytes : List ℕ) (apply_ns : ℕ) (emu : Emu)
    → IsQueue emu
    → IsQueue (queue_crd bytes apply_ns emu)
unfolding queue_crd
queue_crd-IsQueue bytes apply_ns emu h = ground arith

pub crd_out-IsQueue : (emu : Emu) → IsQueue emu → IsQueue (crd_out emu).1
unfolding crd_out
crd_out-IsQueue emu h = ground arith

pub queue_crd_refines :
    (bytes : List ℕ) (apply_ns : ℕ) (emu : Emu)
    → IsQueue emu
    → socket (queue_crd bytes apply_ns emu) ≡ post (next_crd bytes apply_ns emu) (socket emu)
unfolding queue_crd post
queue_crd_refines bytes apply_ns emu h =
    let crd = next_crd bytes apply_ns emu in
    ground (
      arith,
      length-ring 256 emu.crd emu.crd_head emu.crd_count,
      ring-store goes_256 emu.crd crd emu.crd_count emu.crd_head
          ((emu.crd_head + emu.crd_count) % 256),
    )

-- The code tests the count, the queue is matched.
waiting_some :
    (crd : ℕ → Crd) (head count : ℕ)
    → count ≢ 0
    → head < 256
    → ring 256 crd head count ≡ crd head ∷ ring 256 crd ((head + 1) % 256) (count - 1)
waiting_some crd head zero ne h = absurd (ne refl)
waiting_some crd head (suc count) ne h =
    let e : count ≡ suc count - 1 = omega arith in
    ap₂ ◌∷◌ (ap crd (goes_256.small head h))
      (sym (ring_wrapped goes_256 crd (head + 1) count) ∙ ap (ring 256 crd ((head + 1) % 256)) e)

pub crd_out_refines :
    (emu : Emu)
    → IsQueue emu
    → ((crd_out emu).0, socket (crd_out emu).1) ≡ fetch emu.now_ns (socket emu)
unfolding crd_out fetch
crd_out_refines emu h = ground (arith, waiting_some emu.crd emu.crd_head emu.crd_count, h.head_in)

-- What happens to the queue: a response is queued, one is asked for, time passes.
pub data Op : Type 0 where
  respond : List ℕ → ℕ → Op
  collect : Op
  wait : ℕ → Op

-- The answers to the requests.
unfoldable pub run_emu : List Op → Emu → List (Option (List ℕ))
run_emu [] emu = []
run_emu (Op.respond bytes apply_ns ∷ ops) emu = run_emu ops (queue_crd bytes apply_ns emu)
run_emu (Op.collect ∷ ops) emu = (crd_out emu).0 ∷ run_emu ops (crd_out emu).1
run_emu (Op.wait ns ∷ ops) emu = run_emu ops (advance ns emu)

-- The same on a bounded queue, under a clock and a generator of jitter.
unfoldable pub run_socket : Profile → List Op → ℕ → ℕ → Socket → List (Option (List ℕ))
run_socket profile [] now rng s = []
run_socket profile (Op.respond bytes apply_ns ∷ ops) now rng s =
    let jitter = prng_below rng (u64 (profile.ack_jitter_ns + 1)) in
    let crd : Crd = record {
      due_ns = u64 (now + profile.ack_latency_ns + jitter.0 + apply_ns);
      bytes = bytes;
    } in
    run_socket profile ops now jitter.1 (post crd s)
run_socket profile (Op.collect ∷ ops) now rng s =
    (fetch now s).0 ∷ run_socket profile ops now rng (fetch now s).1
run_socket profile (Op.wait ns ∷ ops) now rng s = run_socket profile ops (u64 (now + ns)) rng s

-- What the queue's operations leave to the others.
same_clock :
    (bytes : List ℕ) (apply_ns : ℕ) (emu : Emu)
    → ((queue_crd bytes apply_ns emu).profile ≡ emu.profile)
      × ((queue_crd bytes apply_ns emu).now_ns ≡ emu.now_ns)
      × ((queue_crd bytes apply_ns emu).jitter_rng
          ≡ (prng_below emu.jitter_rng (u64 (emu.profile.ack_jitter_ns + 1))).1)
unfolding queue_crd
same_clock bytes apply_ns emu = ground arith

same_after :
    (emu : Emu)
    → ((crd_out emu).1.profile ≡ emu.profile)
      × ((crd_out emu).1.now_ns ≡ emu.now_ns)
      × ((crd_out emu).1.jitter_rng ≡ emu.jitter_rng)
unfolding crd_out
same_after emu = ground arith

-- No sequence of responses, requests and passing time tells the ring of the emulated readout from a
-- bounded first-in first-out queue: every request gets the oldest response that is queued, if it is
-- due, and what comes to a full queue is dropped.
pub run_emu_refines :
    (ops : List Op) (emu : Emu)
    → IsQueue emu
    → run_emu ops emu ≡ run_socket emu.profile ops emu.now_ns emu.jitter_rng (socket emu)
unfolding run_emu run_socket advance
run_emu_refines [] emu h = refl
run_emu_refines (Op.respond bytes apply_ns ∷ ops) emu h =
    let e = same_clock bytes apply_ns emu in
    let q = queue_crd_refines bytes apply_ns emu h in
    run_emu_refines ops (queue_crd bytes apply_ns emu) (queue_crd-IsQueue bytes apply_ns emu h)
    ∙ (λ i. run_socket (e.0 i) ops (e.1 i) (e.2 i) (q i))
run_emu_refines (Op.collect ∷ ops) emu h =
    let e = same_after emu in
    let q = crd_out_refines emu h in
    ap₂ ◌∷◌ (λ i. (q i).0)
      (run_emu_refines ops (crd_out emu).1 (crd_out-IsQueue emu h)
        ∙ (λ i. run_socket (e.0 i) ops (e.1 i) (e.2 i) (q i).1))
run_emu_refines (Op.wait ns ∷ ops) emu h =
    run_emu_refines ops (advance ns emu) (record { head_in = h.head_in; count_in = h.count_in })
