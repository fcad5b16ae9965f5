-- ===== src/Emu/Acked.antt =====
-- The responses that the emulated readout of c/src/emu/emulator.c queues for what
-- `katherine_configure` of c/src/config.c sends.
use libkatherine.Base.{ℕ, ◌+◌, ◌%◌, ◌<◌, ◌≤◌, ◌≡◌, refl, arith, sym, ◌∙◌}
use libkatherine.Base.{List, [], ◌∷◌, ◌++◌, length, false}
use mathlib.Core.Path.{subst}
use libkatherine.Command.{packet}
use libkatherine.Command.CmdType
use libkatherine.Emu.{Emu, Crd, Regs, store}
use libkatherine.Emu.Prng.{load_le32}
use libkatherine.Emu.Parts.{pulses_of}
use libkatherine.Base.{u16}
use libkatherine.Emu.Respond.{queue_crd, queue_ack, log_cmd, response}
use libkatherine.Emu.Commands.{run_query, run_cmd, handle_cmd, cmd_in}
use libkatherine.Emu.Feed.{feed, feed-append}

-- The slots of a ring hold responses of eight bytes.
abbrev pub AllWhole : (count head : ℕ) → (ℕ → Crd) → Type 0
AllWhole count head crd = (k : ℕ) → k < count → length (crd ((head + k) % 256)).bytes ≡ 8

-- A readout with `n` responses more than a ring had, all of eight bytes, and in no upload.
pub record Acked (n count head : ℕ) (crd : ℕ → Crd) (emu : Emu) : Type 0 where
  pub counted : emu.crd_count ≡ count + n
  pub first : emu.crd_head ≡ head
  pub idle : emu.px_upload_active ≡ false
  pub whole : AllWhole count head crd → AllWhole emu.crd_count emu.crd_head emu.crd

-- Outside of an upload and with room in the ring, the datagrams are answered by `n` responses.
abbrev pub Answers : ℕ → List (List ℕ) → Type 0
Answers n sent =
    (emu : Emu)
    → emu.px_upload_active ≡ false
    → emu.crd_head < 256
    → emu.crd_count + n ≤ 256
    → Acked n emu.crd_count emu.crd_head emu.crd (feed sent emu)

apart :
    (head count k : ℕ)
    → head < 256
    → count < 256
    → k < count
    → ((head + k) % 256 ≡ (head + count) % 256)
    → ⊥
apart head count k h c l e = omega (arith, e)

queue_crd-whole :
    (bytes : List ℕ) (ns : ℕ) (emu : Emu)
    → length bytes ≡ 8
    → emu.crd_head < 256
    → emu.crd_count + 1 ≤ 256
    → AllWhole emu.crd_count emu.crd_head emu.crd
    → AllWhole
        (queue_crd bytes ns emu).crd_count
        (queue_crd bytes ns emu).crd_head
        (queue_crd bytes ns emu).crd
unfolding queue_crd
queue_crd-whole bytes ns emu e h room all k l =
    grind (arith, apart emu.crd_head emu.crd_count k h, all k)

pub queue_crd-Acked :
    (bytes : List ℕ) (ns : ℕ) (emu : Emu)
    → length bytes ≡ 8
    → emu.px_upload_active ≡ false
    → emu.crd_head < 256
    → emu.crd_count + 1 ≤ 256
    → Acked 1 emu.crd_count emu.crd_head emu.crd (queue_crd bytes ns emu)
unfolding queue_crd
queue_crd-Acked bytes ns emu e idle h room = record {
  counted = ground arith;
  first = ground arith;
  idle = ground arith;
  whole = queue_crd-whole bytes ns emu e h room;
}

pub Answers-append :
    (m n : ℕ) (xs ys : List (List ℕ)) → Answers m xs → Answers n ys → Answers (m + n) (xs ++ ys)
Answers-append m n xs ys f g emu idle h room =
    let a = f emu idle h (omega arith) in
    let mid = feed xs emu in
    let b = g mid a.idle (omega (arith, a.first)) (omega (arith, a.counted)) in
    subst (Acked (m + n) emu.crd_count emu.crd_head emu.crd) (sym (feed-append xs ys emu)) (record {
      counted = omega (arith, a.counted, b.counted);
      first = b.first ∙ a.first;
      idle = b.idle;
      whole = λ w. b.whole (a.whole w);
    })

cmd_in_idle :
    (bytes : List ℕ) (emu : Emu)
    → length bytes ≡ 8
    → emu.px_upload_active ≡ false
    → (cmd_in bytes emu).1 ≡ handle_cmd bytes emu
unfolding cmd_in
cmd_in_idle bytes emu e idle = ground arith

-- A change that leaves the ring alone.
record SameRing (emu emu' : Emu) : Type 0 where
  counted : emu'.crd_count ≡ emu.crd_count
  first : emu'.crd_head ≡ emu.crd_head
  slots : emu'.crd ≡ emu.crd
  active : emu'.px_upload_active ≡ emu.px_upload_active

Acked-SameRing :
    (n : ℕ) (emu emu' done : Emu)
    → SameRing emu emu'
    → Acked n emu'.crd_count emu'.crd_head emu'.crd done
    → Acked n emu.crd_count emu.crd_head emu.crd done
Acked-SameRing n emu emu' done s a =
    subst (λ crd. Acked n emu.crd_count emu.crd_head crd done) s.slots
      (subst (λ head. Acked n emu.crd_count head emu'.crd done) s.first
        (subst (λ count. Acked n count emu'.crd_head emu'.crd done) s.counted a))

-- A command of eight bytes that is handled by queueing a response of eight bytes, after a change that
-- leaves the ring alone.
Answers-one :
    (bytes answer : List ℕ) (ns : ℕ) (change : Emu → Emu)
    → length bytes ≡ 8
    → length answer ≡ 8
    → ((emu : Emu) → SameRing emu (change emu))
    → ((emu : Emu) → handle_cmd bytes emu ≡ queue_crd answer ns (change emu))
    → Answers 1 (bytes ∷ [])
unfolding feed
Answers-one bytes answer ns change e f same handled emu idle h room =
    let s = same emu in
    let q =
      queue_crd-Acked answer ns (change emu) f (s.active ∙ idle) (omega (arith, s.first, h))
        (omega (arith, s.counted, room)) in
    subst (Acked 1 emu.crd_count emu.crd_head emu.crd)
      (sym (cmd_in_idle bytes emu e idle ∙ handled emu))
      (Acked-SameRing 1 emu (change emu) (queue_crd answer ns (change emu)) s q)

-- A command that changes the registers, by its code: it is acknowledged.
abbrev logged_as : List ℕ → (Regs → Regs) → Emu → Emu
logged_as bytes f emu = let l = log_cmd bytes emu in record l { regs = f l.regs }

logged-SameRing :
    (bytes : List ℕ) (f : Regs → Regs) (emu : Emu) → SameRing emu (logged_as bytes f emu)
unfolding log_cmd
logged-SameRing bytes f emu = record { counted = refl; first = refl; slots = refl; active = refl }

Answers-regs :
    (bytes answer : List ℕ) (ns : ℕ) (f : Regs → Regs)
    → length bytes ≡ 8
    → length answer ≡ 8
    → ((emu : Emu) → handle_cmd bytes emu ≡ queue_crd answer ns (logged_as bytes f emu))
    → Answers 1 (bytes ∷ [])
Answers-regs bytes answer ns f e e' =
    Answers-one bytes answer ns (logged_as bytes f) e e' (logged-SameRing bytes f)

abbrev ack_of : ℕ → List ℕ
ack_of code = response code 0 0

module _ (a b c d i : ℕ) where
  pub Answers-acq_time_lsb : Answers 1 (packet a b c d i CmdType.acquisition_time_lsb ∷ [])
  unfolding handle_cmd run_cmd queue_ack
  Answers-acq_time_lsb =
      let code = CmdType.acquisition_time_lsb in
      let v = load_le32 (packet a b c d i code) in
      Answers-regs (packet a b c d i code) (ack_of code) 0 (λ r. record r { acq_time_lsb = v }) refl
        refl (λ emu. refl)

  pub Answers-acq_time_msb : Answers 1 (packet a b c d i CmdType.acquisition_time_msb ∷ [])
  unfolding handle_cmd run_cmd queue_ack
  Answers-acq_time_msb =
      let code = CmdType.acquisition_time_msb in
      let v = load_le32 (packet a b c d i code) in
      Answers-regs (packet a b c d i code) (ack_of code) 0 (λ r. record r { acq_time_msb = v }) refl
        refl (λ emu. refl)

  pub Answers-bias : Answers 1 (packet a b c d i CmdType.bias_settings ∷ [])
  unfolding handle_cmd run_cmd queue_ack
  Answers-bias =
      let code = CmdType.bias_settings in
      let v = load_le32 (packet a b c d i code) in
      Answers-regs (packet a b c d i code) (ack_of code) 0 (λ r. record r { bias = v }) refl refl
        (λ emu. refl)

  pub Answers-no_frames : Answers 1 (packet a b c d i CmdType.number_of_frames ∷ [])
  unfolding handle_cmd run_cmd run_query queue_ack
  Answers-no_frames =
      let code = CmdType.number_of_frames in
      let v = load_le32 (packet a b c d i code) in
      Answers-regs (packet a b c d i code) (ack_of code) 0 (λ r. record r { no_frames = v }) refl
        refl (λ emu. refl)

  pub Answers-acq_setup : Answers 1 (packet a b c d i CmdType.acquisition_setup ∷ [])
  unfolding handle_cmd run_cmd run_query queue_ack
  Answers-acq_setup =
      let code = CmdType.acquisition_setup in
      let v = load_le32 (packet a b c d i code) in
      Answers-regs (packet a b c d i code) (ack_of code) 0
        (λ r. record r { acq_setup = store r.acq_setup (i % 8) v }) refl refl (λ emu. refl)

  pub Answers-hw_command : Answers 1 (packet a b c d i CmdType.hw_command_start ∷ [])
  unfolding handle_cmd run_cmd queue_ack
  Answers-hw_command =
      let code = CmdType.hw_command_start in
      Answers-regs (packet a b c d i code) (ack_of code) 0 (λ r. r) refl refl (λ emu. refl)

  pub Answers-test_pulses : Answers 1 (packet a b c d i CmdType.test_pulse_setting ∷ [])
  unfolding handle_cmd run_cmd run_query queue_ack
  Answers-test_pulses =
      let code = CmdType.test_pulse_setting in
      Answers-regs (packet a b c d i code) (ack_of code) 1000000000
        (pulses_of (packet a b c d i code)) refl refl (λ emu. refl)

  pub Answers-dac : i < 18 → Answers 1 (packet a b c d i CmdType.internal_dac_settings ∷ [])
  unfolding handle_cmd run_cmd queue_ack
  Answers-dac h =
      let code = CmdType.internal_dac_settings in
      let v = load_le32 (packet a b c d i code) in
      Answers-regs (packet a b c d i code) (ack_of code) 0
        (λ r. record r { dac = store r.dac i (u16 v) }) refl refl (λ emu. ground arith)

  pub Answers-register : i < 12 → Answers 1 (packet a b c d i CmdType.sensor_register_setting ∷ [])
  unfolding handle_cmd run_cmd queue_ack
  Answers-register h =
      let code = CmdType.sensor_register_setting in
      let v = load_le32 (packet a b c d i code) in
      Answers-regs (packet a b c d i code) (ack_of code) 0
        (λ r. record r { sensor_reg = store r.sensor_reg i v }) refl refl (λ emu. ground arith)
