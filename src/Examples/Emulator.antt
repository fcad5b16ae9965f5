-- ===== src/Examples/Emulator.antt =====
-- The theorems on c/src/status.c and on c/src/emu at concrete inputs.
use libkatherine.Base.{ℕ, ◌+◌, ◌*◌, ◌/◌, ◌≡◌, ◌≤◌, refl, arith, true, false}
use libkatherine.Base.{List, [], ◌∷◌, length, map, min}
use libkatherine.Udp.{Addr, Udp, Incoming, datagram, ok}
use libkatherine.Command.{cmd6_bytes}
use libkatherine.Command.CmdType
use libkatherine.Config.{Config, Trigger}
use libkatherine.Config.Asked.{IsAsked}
use libkatherine.Acq.Decode.{Kind, kind}
use libkatherine.Status.{get_readout_status, chip_string}
use libkatherine.Status.Answers.{IsProfile, reported, get_readout_status-emulated}
use libkatherine.Status.Chip.{encode_chip_id-chip_string}
use libkatherine.Emu.{Emu, Stream, Stage, Pattern, Profile}
use libkatherine.Emu.Generator.{Hit, build_hit_md}
use libkatherine.Emu.Pump.{pump, stream_advance, data_out}
use libkatherine.Emu.Respond.{encode_chip_id, readout_status_bytes}
use libkatherine.Emu.Commands.{emu_init, no_regs}
use libkatherine.Emu.Queue.{Op, IsQueue, run_emu, run_socket, socket, run_emu_refines}
use libkatherine.Emu.Layouts.{IsHit, decoded, pixel_of, decoded-build_hit_md}
use libkatherine.Emu.Log.{logged, log_all, latest, entry_of, logged-log_all}
use libkatherine.Emu.Staging.{IsResting, pump-IsResting}
use libkatherine.Emu.Tokens.{IsSound, stream_advance-tokens}
use libkatherine.Emu.Handover.{HandsOver, given, data_out-HandsOver}
use libkatherine.Emu.Shaping.{Use, received, elapsed, length-received}
use libkatherine.Emu.Safe.{HostCall, IsEmu, calls, calls-IsEmu}

-- A stream of two frames with three hits each, of which one datum waits.
abbrev pub stream : Stream
stream = record {
  armed = true;
  frame_active = true;
  stage = Stage.pixels;
  readout_mode = 0;
  acq_mode = 0;
  fast_vco = true;
  frames_total = 2;
  frame_index = 0;
  frame_open_ns = 0;
  frame_len_ns = 4000;
  pattern = Pattern.uniform;
  hits = 3;
  lost = 0;
  px_index = 0;
  offset_sent = false;
  hot_column = 0;
  buf = 0 ∷ 0 ∷ 0 ∷ 0 ∷ 0 ∷ 112 ∷ 0 ∷ 0 ∷ 0 ∷ 0 ∷ 0 ∷ 128 ∷ [];
  buf_pos = 6;
  tokens = 20;
  token_frac = 5;
  rng = 42;
}

stream-IsSound : IsSound stream
stream-IsSound = record {
  size = omega arith;
  whole = refl;
  pos = omega arith;
  pos_whole = refl;
  burst = omega arith;
  frac = omega arith;
}

abbrev pub profile : Profile
profile = record {
  hw_type = 1;
  hw_revision = 2;
  serial = 3;
  fw_version = 4;
  chip_id = [];
  readout_temperature = 0;
  sensor_temperature = 0;
  ack_latency_ns = 10;
  ack_jitter_ns = 4;
  seed = 42;
  shape_bytes_per_s = 1000000;
  pattern = Pattern.uniform;
  hits_per_frame = 3;
  lost_per_frame = 0;
}

abbrev pub emulated : Emu
emulated = record {
  profile = profile;
  chip_id_word = 0;
  now_ns = 2000;
  regs = no_regs;
  px_upload_words = 0;
  px_upload_active = false;
  px_upload_chip = 0;
  crd = λ _. record { due_ns = 0; bytes = [] };
  crd_head = 255;
  crd_count = 1;
  crd_dropped = 0;
  log = λ _. record { opcode = 0; subindex = 0; payload = 0 };
  log_head = 2047;
  log_count = 0;
  unknown_cmds = 0;
  jitter_rng = 42;
  stream = stream;
}

abbrev ops : List Op
ops = Op.respond (1 ∷ 2 ∷ []) 0 ∷ Op.collect ∷ Op.wait 20 ∷ Op.collect ∷ Op.collect ∷ []

emulated-IsQueue : IsQueue emulated
emulated-IsQueue = record { head_in = omega arith; count_in = omega arith }

run_emu_refines_example : run_emu ops emulated ≡ run_socket profile ops 2000 42 (socket emulated)
run_emu_refines_example = run_emu_refines ops emulated emulated-IsQueue

abbrev hit : Hit
hit = record {
  x = 12;
  y = 34;
  toa = 560;
  ftoa = 7;
  hit_count = 8;
  tot = 90;
  event_count = 1;
  integral_tot = 2;
}

hit-IsHit : IsHit hit
hit-IsHit = record {
  x_lt = omega arith;
  y_lt = omega arith;
  toa_lt = omega arith;
  ftoa_lt = omega arith;
  hit_count_lt = omega arith;
  tot_lt = omega arith;
  event_count_lt = omega arith;
  integral_tot_lt = omega arith;
}

decoded-build_hit_md_example :
    (kind (build_hit_md 1 true hit) ≡ Kind.pixel)
    × (decoded 1 true 16384 (build_hit_md 1 true hit) ≡ pixel_of 1 true 16384 hit)
decoded-build_hit_md_example = decoded-build_hit_md 1 16384 true hit (omega arith) hit-IsHit

abbrev commands : List (List ℕ)
commands = (7 ∷ 0 ∷ 0 ∷ 0 ∷ 0 ∷ 0 ∷ 7 ∷ 0 ∷ []) ∷ (0 ∷ 0 ∷ 0 ∷ 0 ∷ 2 ∷ 0 ∷ 4 ∷ 0 ∷ []) ∷ []

logged-log_all_example : logged (log_all commands emulated) ≡ latest (map entry_of commands)
logged-log_all_example = logged-log_all commands emulated (omega arith) refl

profile-IsProfile : IsProfile profile
profile-IsProfile = record {
  hw_type_lt = omega arith;
  hw_revision_lt = omega arith;
  serial_lt = omega arith;
  fw_version_lt = omega arith;
}

abbrev host : Addr
host = record { host = 7; port = 1555 }

abbrev control : List Incoming → List (Addr × List ℕ) → Udp
control inbox sent = record {
  addr_remote = host;
  remote_pinned = true;
  inbox = inbox;
  outcomes = [];
  locks = [];
  sent = sent;
  held = 0;
}

get_readout_status-emulated_example :
    get_readout_status (control (datagram host (readout_status_bytes profile) ∷ []) [])
    ≡ (ok (reported profile), control [] ((host, cmd6_bytes CmdType.get_readout_status) ∷ []))
get_readout_status-emulated_example =
    get_readout_status-emulated profile []
      (control (datagram host (readout_status_bytes profile) ∷ []) []) profile-IsProfile
      (record { pinned = refl; takes = refl; free = refl }) refl

encode_chip_id-chip_string_example : encode_chip_id (chip_string 0x123C5) ≡ 0x123C5
encode_chip_id-chip_string_example = encode_chip_id-chip_string 0x123C5 (omega arith) (omega arith)

pump-IsResting_example : IsResting 2500 (pump 2500 stream)
pump-IsResting_example = pump-IsResting 2500 stream

stream_advance-tokens_example :
    (stream_advance 1000000 2999 stream).tokens ≡ min 65536 (20 + (5 + 2999 * 1000000) / 1000000000)
stream_advance-tokens_example =
    stream_advance-tokens 1000000 2999 stream stream-IsSound (omega arith)

data_out-HandsOver_example :
    HandsOver 13 1000000 stream
      (pump 2000 stream)
      (data_out 13 emulated).1.stream
      (given (data_out 13 emulated).0)
data_out-HandsOver_example = data_out-HandsOver 13 emulated stream-IsSound

abbrev uses : List Use
uses = Use.take_data 6 ∷ Use.wait 9000 ∷ Use.take_data 100 ∷ []

length-received_example :
    length (received uses emulated) ≤ 20 + (5 + elapsed uses * 1000000) / 1000000000
length-received_example = length-received uses emulated (omega arith) stream-IsSound

abbrev session : List HostCall
session =
    HostCall.send (0 ∷ 0 ∷ 0 ∷ 0 ∷ 0 ∷ 0 ∷ 3 ∷ 0 ∷ [])
    ∷ HostCall.wait 100
    ∷ HostCall.collect
    ∷ HostCall.take_data 60
    ∷ HostCall.read_log 4
    ∷ []

calls-IsEmu_example : IsEmu (calls session (emu_init profile))
calls-IsEmu_example = calls-IsEmu session profile

abbrev pub trigger : Trigger
trigger = record { enabled = true; channel = 2; use_falling_edge = false }

abbrev pub config : Config
config = record {
  pixel_config = λ i. i;
  bias_id = 0;
  acq_time = 0x500000064;
  no_frames = 3;
  bias = 0x42480000;
  start_trigger = trigger;
  delayed_start = false;
  stop_trigger = trigger;
  gray_disable = false;
  polarity_holes = true;
  phase = 2;
  freq = 1;
  dacs = λ i. 10 * i;
  test_pulse_config = record {
    enabled = true;
    digital_only = true;
    external = false;
    count = 1000;
    period = 200;
    phase = 3;
  };
}

pub config-IsAsked : IsAsked config
config-IsAsked = record {
  phase_lt = omega arith;
  freq_lt = omega arith;
  start_lt = omega arith;
  stop_lt = omega arith;
}
