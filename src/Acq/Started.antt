-- ===== src/Acq/Started.antt =====
-- `katherine_acquisition_begin` of c/src/acquisition.c over a link that answers.
use libkatherine.Base.{ℕ, ◌+◌, ◌≡◌, refl, arith, ap, ◌∙◌, ltb, ◌&&◌, ◌==◌, not}
use libkatherine.Base.{Bool, true, false, List, [], ◌∷◌, ◌++◌, length, if◌then◌else◌, einval}
use libkatherine.Udp.{Udp, Incoming, err, ok, mutex_lock, mutex_unlock}
use libkatherine.Session.{◌>>◌, cmd, locked}
use libkatherine.Session.Dialogue.{IsReady, Does-cmd, replies, push}
use libkatherine.Session.Talk.{Talks, Talks-count, Talks-bind, Talks-cmd, Talks-locked, listed}
use libkatherine.Command.{cmd6_i64, cmd64_i64_bytes}
use libkatherine.Command.CmdType
use libkatherine.Config.{
  Config, is_refused, set_seq_readout_start, set_acq_mode, acq_mode_bytes, acknowledged,
}
use libkatherine.Config.Configure.{configure}
use libkatherine.Config.Script.{Talks-exchange}
use libkatherine.Config.Transcript.{transcript, Talks-configure}
use libkatherine.Acq.{Acq, State, Mode}
use libkatherine.Acq.Begin.{
  data_driven, mode_number, prepare, running, start_locked, begin_rest, begin,
}

abbrev pub readout_bytes : ℕ → List ℕ
readout_bytes readout_mode = cmd64_i64_bytes CmdType.seq_readout_start 0 readout_mode

abbrev pub start_bytes : ℕ → List ℕ
start_bytes readout_mode = cmd64_i64_bytes CmdType.acquisition_start 0 readout_mode

-- What is sent before the start.
abbrev pub preparation : (ℕ → Bool) → Config → ℕ → Mode → Bool → List (List ℕ)
preparation has_memory config readout_mode acq_mode fast_vco =
    transcript has_memory config
    ++ (readout_bytes readout_mode ∷ acq_mode_bytes (mode_number acq_mode) fast_vco ∷ [])

abbrev pub acks_needed : Config → ℕ
acks_needed config = 33 + (if config.test_pulse_config.enabled then 1 else 0)

Talks-prepare :
    (has_memory : ℕ → Bool) (config : Config) (readout_mode : ℕ) (acq_mode : Mode) (fast_vco : Bool)
    → (config.test_pulse_config.enabled
        && not config.test_pulse_config.external
        && is_refused config.test_pulse_config)
      ≡ false
    → Talks
        (prepare has_memory config readout_mode acq_mode fast_vco)
        (preparation has_memory config readout_mode acq_mode fast_vco)
        (acks_needed config)
unfolding prepare set_seq_readout_start set_acq_mode cmd6_i64
Talks-prepare has_memory config readout_mode acq_mode fast_vco h =
    let readout = readout_bytes readout_mode in
    let mode = acq_mode_bytes (mode_number acq_mode) fast_vco in
    let more = if config.test_pulse_config.enabled then 1 else 0 in
    let a = locked (cmd readout) in
    let b = locked (acknowledged (cmd mode)) in
    let count : 32 + more + (0 + 1) ≡ 33 + more = omega arith in
    Talks-count (prepare has_memory config readout_mode acq_mode fast_vco)
      (preparation has_memory config readout_mode acq_mode fast_vco) (32 + more + (0 + 1))
      (33 + more) count
      (Talks-bind (configure has_memory config) (a >> b) (transcript has_memory config)
        (readout ∷ mode ∷ []) (32 + more) (0 + 1) (Talks-configure has_memory config h)
        (Talks-bind a b (readout ∷ []) (mode ∷ []) 0 1
          (Talks-locked (cmd readout) (readout ∷ []) 0 (Talks-cmd readout)) (Talks-exchange mode)))

start_sent :
    (now readout_mode : ℕ) (acq : Acq) (u : Udp)
    → IsReady u
    → start_locked now readout_mode acq (mutex_lock u) ≡ (
      ok tt,
      record u { sent = (u.addr_remote, start_bytes readout_mode) ∷ u.sent },
      record acq { acq_start_time = now },
    )
unfolding mutex_lock mutex_unlock cmd6_i64
start_sent now readout_mode acq u ready =
    let locked_u = record u { held = u.held + 1 } in
    let ready' : IsReady locked_u = record {
      pinned = ready.pinned;
      takes = ready.takes;
      free = ready.free;
    } in
    ground (arith, ready.free, Does-cmd (start_bytes readout_mode) locked_u u.inbox ready' refl)

-- What the acquisition is once it has begun: what is not named here is as it was, the abort flag too.
abbrev pub begun : Config → (now duration : ℕ) → ℕ → Mode → Bool → Bool → Acq → Acq
begun config now duration readout_mode acq_mode fast_vco decode_data acq = record acq {
  state = State.running;
  acq_mode = acq_mode;
  readout_mode = readout_mode;
  fast_vco_enabled = fast_vco;
  decode_data = decode_data;
  acq_start_time = now;
  completed_frames = 0;
  requested_frames = config.no_frames;
  requested_frame_duration = duration;
  dropped_measurement_data = 0;
  pixel_buffer = [];
  pixel_buffer_valid = 0;
  pixel_buffer_max_valid = 0;
  last_toa_offset = 0;
  frame_active = false;
}

if_false : {A : Type 0} (b : Bool) (x y : A) → b ≡ false → (if b then x else y) ≡ y
if_false true x y e = absurd (ground arith)
if_false false x y e = refl

-- A pinned control socket over a link that takes every datagram, with a mutex that can be had, on
-- which the readout has answered with as many 8-byte acknowledgements as needed, whatever they hold:
-- `katherine_acquisition_begin`, of test pulses that are not refused and of one frame at most if the
-- readout is data driven, succeeds. It sends the datagrams of the configuration, then those of the
-- readout mode, of the acquisition mode and of the start, and takes 33 acknowledgements, or 34 with
-- test pulses; the lock count is as it was. The acquisition is then running, with its counters and its pixel
-- buffer reset, and with the abort flag that it had before.
pub begin-preparation :
    (has_memory : ℕ → Bool) (now duration : ℕ) (config : Config) (readout_mode : ℕ)
    (acq_mode : Mode) (fast_vco decode_data : Bool) (acks : ℕ → List ℕ) (rest : List Incoming)
    (u : Udp) (acq : Acq)
    → (readout_mode == data_driven && ltb 1 config.no_frames) ≡ false
    → (config.test_pulse_config.enabled
        && not config.test_pulse_config.external
        && is_refused config.test_pulse_config)
      ≡ false
    → ((k : ℕ) → length (acks k) ≡ 8)
    → IsReady u
    → u.inbox ≡ replies u.addr_remote (listed 0 (acks_needed config) acks) ++ rest
    → let sent =
        push u.addr_remote (preparation has_memory config readout_mode acq_mode fast_vco) u.sent in
      (begin has_memory now duration config readout_mode acq_mode fast_vco decode_data u acq ≡ (
        ok tt,
        record u { inbox = rest; sent = (u.addr_remote, start_bytes readout_mode) ∷ sent },
        begun config now duration readout_mode acq_mode fast_vco decode_data acq,
      ))
      × ((begun config now duration readout_mode acq_mode fast_vco decode_data acq).aborted
          ≡ acq.aborted)
unfolding begin prepare running
begin-preparation has_memory now duration config readout_mode acq_mode fast_vco decode_data acks
      rest u acq one valid whole ready e =
    let chosen = record acq {
      acq_mode = acq_mode;
      readout_mode = readout_mode;
      fast_vco_enabled = fast_vco;
      decode_data = decode_data;
    } in
    let u₁ = record u {
      inbox = rest;
      sent =
          push u.addr_remote (preparation has_memory config readout_mode acq_mode fast_vco) u.sent;
    } in
    let ready₁ : IsReady u₁ = record {
      pinned = ready.pinned;
      takes = ready.takes;
      free = ready.free;
    } in
    let prepared =
      Talks-prepare has_memory config readout_mode acq_mode fast_vco valid 0 acks whole u rest ready
        e in
    let started = start_sent now readout_mode (running config duration chosen) u₁ ready₁ in
    (
      if_false (readout_mode == data_driven && ltb 1 config.no_frames) (err einval, u, chosen)
            (begin_rest now duration config readout_mode chosen
              (prepare has_memory config readout_mode acq_mode fast_vco u))
            one
          ∙ ap (begin_rest now duration config readout_mode chosen) prepared
          ∙ started,
      refl,
    )
