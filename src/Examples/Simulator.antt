-- ===== src/Examples/Simulator.antt =====
-- The theorems on tools/ksim/main.c, and on a configuration that the emulated readout answers, at
-- concrete inputs.
use libkatherine.Base.{ℕ, ◌+◌, ◌^◌, ◌≡◌, refl, arith, true, false, ltb}
use libkatherine.Base.{List, [], ◌∷◌, Option, none, some, Text, codes, if◌then◌else◌, inr}
use libkatherine.Base.{replicate}
use libkatherine.Udp.{Addr, Udp, Incoming}
use libkatherine.Udp.Open.{Calls, LocalAddr}
use libkatherine.Emu.{Emu, Pattern}
use libkatherine.Emu.Feed.{feed}
use libkatherine.Emu.Configured.{configured}
use libkatherine.Config.Transcript.{transcript}
use libkatherine.Ksim.Options.{
  DaemonOptions, runs, defaults, parse_options, parse_u64, parse_u32, parse_port,
}
use libkatherine.Ksim.Options.Numbers.{written, parse_u64-written}
use libkatherine.Ksim.Options.CommandLine.{IsSayable, command_line}
use libkatherine.Ksim.Options.RoundTrip.{parse_options-command_line}
use libkatherine.Ksim.Options.Rounds.{Course, parse_options-Course}
use libkatherine.Ksim.Daemon.{Daemon, drain, send_mds, data_left}
use libkatherine.Ksim.Daemon.Work.{IsBounded}
use libkatherine.Ksim.Daemon.Data.{Sends, send_mds-Sends}
use libkatherine.Ksim.Daemon.Deliver.{arrived, payloads, without_chunk, drain-feed}
use libkatherine.Ksim.Daemon.Configured.{from_client}
use libkatherine.Ksim.Main.{Host, Held, main, main-held}
use libkatherine.Examples.Emulator.{config, config-IsAsked, emulated, stream}
use libkatherine.Base.{◌++◌}
use libkatherine.Udp.{ok}
use libkatherine.Session.Dialogue.{IsReady, replies, push}
use libkatherine.Config.Configure.{configure}
use libkatherine.Emu.Configures.{waiting, configure-configured}
use libkatherine.Config.{is_refused}
use libkatherine.Ksim.Daemon.{send_crds}
use libkatherine.Ksim.Daemon.Responses.{AllDue, send_crds-waiting}

abbrev asked : DaemonOptions
asked = record defaults {
  listen_addr = codes "127.0.0.1";
  ctl_port = 5000;
  seed = some 18446744073709551615;
  hits_per_frame = some 12;
  pattern = some Pattern.gradient;
  drop_crd = 2;
  log_path = some (codes "log.txt");
  quiet = true;
}

asked-IsSayable : IsSayable asked
asked-IsSayable = record {
  profile = refl;
  ctl_port_lt = omega arith;
  data_port_lt = omega arith;
  client_data_port_lt = omega arith;
  seed_lt = λ n e. ground arith;
  rate_lt = λ n e. ground arith;
  hits_per_frame_lt = λ n e. ground arith;
  lost_per_frame_lt = λ n e. ground arith;
  pattern_named = λ e. cc;
  ack_latency_us_lt = λ n e. ground arith;
  drop_px_chunk_lt = omega arith;
  drop_crd_lt = omega arith;
}

parse_options-command_line_example : parse_options (command_line asked) ≡ runs asked
parse_options-command_line_example = parse_options-command_line asked asked-IsSayable

parse_u64-written_example :
    (parse_u64 (some (written 70000)) ≡ (if ltb 70000 (2 ^ 64) then some 70000 else none))
    × (parse_u32 (some (written 70000)) ≡ (if ltb 70000 (2 ^ 32) then some 70000 else none))
    × (parse_port (some (written 70000)) ≡ (if ltb 70000 (2 ^ 16) then some 70000 else none))
parse_u64-written_example = parse_u64-written 70000 (omega arith)

abbrev words : List Text
words = codes "--seed" ∷ codes "7" ∷ codes "-q" ∷ []

parse_options-Course_example : Course words defaults (parse_options words)
parse_options-Course_example = parse_options-Course words

abbrev client : Addr
client = record { host = 16777343; port = 40000 }

abbrev session : List Incoming → Udp
session inbox = record {
  addr_remote = record { host = 0; port = 0 };
  remote_pinned = false;
  inbox = inbox;
  outcomes = [];
  locks = [];
  sent = [];
  held = 0;
}

abbrev daemon : DaemonOptions → List Incoming → Daemon
daemon o inbox = record {
  options = o;
  emu = emulated;
  ctl_udp = session inbox;
  ctl_local = record { host = 0; port = 1555 };
  data_udp = session [];
  client_known = false;
  stray_crd_pending = true;
  data_remote_ip = none;
  commands_seen = 0;
  md_bytes_sent = 0;
  md_send_errors = 0;
  px_chunks_seen = 1;
  self_sourced_seen = 0;
  crd_count_armed = false;
  crds_counted = 0;
  prev_ns = 5;
  log_lines = [];
}

abbrev inet_pton : Text → Option ℕ
inet_pton text = some 16777343

abbrev command : List ℕ
command = 1 ∷ 0 ∷ 0 ∷ 0 ∷ 0 ∷ 0 ∷ 2 ∷ 0 ∷ []

abbrev messages : List (Addr × List ℕ)
messages = (client, command) ∷ (client, replicate 1024 0) ∷ (client, command) ∷ []

abbrev dropping : DaemonOptions
dropping = record defaults { drop_px_chunk = 2 }

drain-feed_example :
    (drain inet_pton 256 (daemon dropping (arrived messages))).emu
    ≡ feed (without_chunk 1 (payloads messages)) emulated
drain-feed_example =
    drain-feed inet_pton 256 messages (daemon dropping (arrived messages))
      (omega arith, (omega arith, (omega arith, tt))) (omega arith) (omega arith) refl refl

abbrev configuring : Daemon
configuring = daemon defaults (arrived (from_client client (transcript (λ _. true) config)))

stream-IsBounded : IsBounded stream
stream-IsBounded = record {
  frames = omega arith;
  hits = omega arith;
  ahead = inr (omega arith);
  handed = omega arith;
}

send_mds-Sends_example :
    Sends (daemon defaults []) (send_mds (data_left stream + 1) (daemon defaults []))
send_mds-Sends_example = send_mds-Sends (daemon defaults []) stream-IsBounded

abbrev working : Calls
working = record {
  socket = 0;
  reuseaddr = 0;
  local_addr = LocalAddr.parsed;
  bind = 0;
  timeout = 0;
  remote_addr = some 0;
  mutex = 0;
  inbox = [];
}

abbrev host : Host
host = record {
  ctl_calls = working;
  data_calls = record working { bind = 98 };
  ctl_local = record { host = 0; port = 1555 };
  fopen = 0;
  stop_handler = 0;
  inet_pton = inet_pton;
  first_ns = 5;
  ticks = 10 ∷ 20 ∷ [];
}

abbrev nothing : Held
nothing = record { sockets = 0; files = 0 }

main-held_example : (main host words nothing).2 ≡ nothing
main-held_example = main-held host words nothing

abbrev fresh : Emu
fresh = record emulated { crd_count = 0 }

abbrev answered : Emu
answered = feed (transcript (λ _. true) config) fresh

abbrev application : Udp
application = record (session (replies client (waiting answered) ++ [])) {
  addr_remote = client;
  remote_pinned = true;
}

application-IsReady : IsReady application
application-IsReady = record { pinned = refl; takes = refl; free = refl }

configure-configured_example :
    (configure (λ _. true) config application ≡ (
      ok tt,
      record application { inbox = []; sent = push client (transcript (λ _. true) config) [] },
    ))
    × (answered.regs ≡ configured config fresh.regs)
unfolding is_refused
configure-configured_example =
    configure-configured (λ _. true) config fresh [] application refl config-IsAsked refl
      (omega arith) refl application-IsReady refl

emulated-AllDue : AllDue emulated
emulated-AllDue = record { head_in = omega arith; due = λ k h. omega arith }

send_crds-waiting_example :
    (send_crds 2 (daemon defaults [])).ctl_udp.sent
    ≡ push (daemon defaults []).ctl_udp.addr_remote (waiting emulated) []
send_crds-waiting_example = send_crds-waiting (daemon defaults []) refl refl emulated-AllDue
