-- ===== src/Examples/Setup.antt =====
-- The theorems on c/src/command_interface.h and c/src/config.c at concrete inputs.
use libkatherine.Base.{ℕ, ◌*◌, ◌≡◌, refl, arith, true, false}
use libkatherine.Base.{List, [], ◌∷◌, ◌++◌, einval}
use libkatherine.Udp.{Addr, Udp, Incoming, refused, err, ok}
use libkatherine.Session.Dialogue.{IsReady, replies, push}
use libkatherine.Session.Talk.{listed}
use libkatherine.Session.Balance.{Released}
use libkatherine.Config.{Config, Trigger, TestPulseConfig, set_test_pulses}
use libkatherine.Config.{is_refused}
use libkatherine.Config.Configure.{configure}
use libkatherine.Config.Asked.{IsAsked}
use libkatherine.Config.Protocol.{protocol, configure-protocol}
use libkatherine.Config.Balance.{configure-Released}
use libkatherine.Config.Pulses.{InRange, set_test_pulses-refused}
use libkatherine.Acq.{Acq, State, Mode, no_info}
use libkatherine.Acq.Begin.{begin}
use libkatherine.Acq.Started.{begun, preparation, start_bytes, begin-preparation}

abbrev pulses : TestPulseConfig
pulses = record {
  enabled = true;
  digital_only = true;
  external = false;
  count = 1000;
  period = 200;
  phase = 3;
}

pulses-InRange : InRange pulses
pulses-InRange = record {
  count_positive = omega arith;
  period_low = omega arith;
  period_high = omega arith;
  phase_high = omega arith;
}

abbrev too_fast : TestPulseConfig
too_fast = record pulses { period = 64 }

abbrev trigger : Trigger
trigger = record { enabled = true; channel = 2; use_falling_edge = false }

abbrev config : Config
config = record {
  pixel_config = λ i. i;
  bias_id = 0;
  acq_time = 100;
  no_frames = 1;
  bias = 0;
  start_trigger = trigger;
  delayed_start = false;
  stop_trigger = trigger;
  gray_disable = false;
  polarity_holes = true;
  phase = 2;
  freq = 1;
  dacs = λ i. 10 * i;
  test_pulse_config = pulses;
}

config-IsAsked : IsAsked config
config-IsAsked = record {
  phase_lt = omega arith;
  freq_lt = omega arith;
  start_lt = omega arith;
  stop_lt = omega arith;
}

abbrev readout : Addr
readout = record { host = 7; port = 1555 }

abbrev ack : ℕ → List ℕ
ack k = 0 ∷ k ∷ 0 ∷ 0 ∷ 0 ∷ 0 ∷ 0 ∷ 0 ∷ []

abbrev session : List Incoming → Udp
session inbox = record {
  addr_remote = readout;
  remote_pinned = true;
  inbox = inbox;
  outcomes = [];
  locks = [];
  sent = [];
  held = 0;
}

session-IsReady : (inbox : List Incoming) → IsReady (session inbox)
session-IsReady inbox = record { pinned = refl; takes = refl; free = refl }

configure-protocol_example :
    configure (λ _. true) config (session (replies readout (listed 0 33 ack) ++ [])) ≡ (
      ok tt,
      record (session (replies readout (listed 0 33 ack) ++ [])) {
        inbox = [];
        sent = push readout (protocol config) [];
      },
    )
unfolding is_refused
configure-protocol_example =
    configure-protocol (λ _. true) config ack [] (session (replies readout (listed 0 33 ack) ++ []))
      refl config-IsAsked (λ _. refl) (session-IsReady (replies readout (listed 0 33 ack) ++ []))
      refl

-- A link that refuses a datagram, on which nothing arrives.
abbrev silent : Udp
silent = record (session []) { outcomes = refused 110 ∷ []; held = 2 }

configure-Released_example : Released silent (configure (λ _. false) config silent).1
configure-Released_example = configure-Released (λ _. false) config silent refl

set_test_pulses-refused_example : set_test_pulses too_fast (session []) ≡ (err einval, session [])
set_test_pulses-refused_example =
    set_test_pulses-refused too_fast (session []) refl refl (λ h. omega (arith, h.period_low))

-- An acquisition that has been aborted.
abbrev aborted : Acq
aborted = record {
  state = State.succeeded;
  aborted = true;
  readout_mode = 0;
  acq_mode = Mode.mode_toa_tot;
  fast_vco_enabled = true;
  md_buffer = [];
  md_buffer_size = 34;
  decode_data = true;
  pixel_buffer = [];
  pixel_buffer_size = 48;
  pixel_buffer_valid = 0;
  pixel_buffer_max_valid = 2;
  requested_frames = 1;
  requested_frame_duration = 0;
  completed_frames = 0;
  dropped_measurement_data = 5;
  acq_start_time = 0;
  report_timeout = 0;
  fail_timeout = 0;
  handlers = record {
    pixels_received = true;
    frame_started = true;
    frame_ended = true;
    data_received = false;
  };
  current_frame_info = no_info;
  last_toa_offset = 9;
  frame_active = true;
  calls = [];
}

begin-preparation_example :
    let prepared = preparation (λ _. true) config 0 Mode.mode_only_toa true in
    (begin
        (λ _. true)
        1000
        250
        config
        0
        Mode.mode_only_toa
        true
        true
        (session (replies readout (listed 0 34 ack) ++ []))
        aborted
      ≡ (
        ok tt,
        record (session []) { sent = (readout, start_bytes 0) ∷ push readout prepared [] },
        begun config 1000 250 0 Mode.mode_only_toa true true aborted,
      ))
    × ((begun config 1000 250 0 Mode.mode_only_toa true true aborted).aborted ≡ true)
unfolding is_refused
begin-preparation_example =
    begin-preparation (λ _. true) 1000 250 config 0 Mode.mode_only_toa true true ack []
      (session (replies readout (listed 0 34 ack) ++ [])) aborted refl refl (λ _. refl)
      (session-IsReady (replies readout (listed 0 34 ack) ++ [])) refl
