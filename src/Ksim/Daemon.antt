-- ===== src/Ksim/Daemon.antt =====
-- tools/ksim/main.c: the main loop of the daemon. Its sockets are sessions of libkatherine; each round
-- of the loop reads the clock once, and inet_pton() is a parameter. Messages are left out, the lines
-- of the command log are the entries that they print. The loops over the queues of the emulated
-- readout run on fuel: the responses and the log entries that it holds, and a bound on the data that
-- it can still produce.
pub mod Work
pub mod Data
pub mod Deliver
pub mod Configured
pub mod Responses
use libkatherine.Base.{ℕ, zero, suc, ◌+◌, ◌-◌, ◌*◌, ◌/◌, ◌%◌, ◌==◌, ltb, if◌then◌else◌, u64}
use libkatherine.Base.{Bool, true, false, not, ◌&&◌, ◌||◌, List, [], ◌∷◌, ◌++◌, length, get_or}
use libkatherine.Base.{Option, none, some, Text, codes, replicate, eintr}
use libkatherine.Udp.{Addr, Udp, Received, err, ok, recv, send_exact, set_remote}
use libkatherine.Status.{decimal}
use libkatherine.Emu.{Emu, Stream, Stage, Profile, LogEntry}
use libkatherine.Emu.Commands.{profile_defaults, emu_init, cmd_in, crd_out, advance, log_read}
use libkatherine.Emu.Pump.{data_out}
use libkatherine.Ksim.Options.{DaemonOptions}

abbrev pub recv_buf_size : ℕ
recv_buf_size = 2048

abbrev pub px_chunk_size : ℕ
px_chunk_size = 1024

abbrev pub md_datagram_max_bytes : ℕ
md_datagram_max_bytes = 1356

abbrev pub max_drain_per_tick : ℕ
max_drain_per_tick = 256

abbrev pub log_drain_batch : ℕ
log_drain_batch = 64

-- The variables of `main`.
pub record Daemon : Type 0 where
  pub options : DaemonOptions
  pub emu : Emu
  pub ctl_udp : Udp
  pub ctl_local : Addr
  pub data_udp : Udp
  pub client_known : Bool
  pub stray_crd_pending : Bool
  pub data_remote_ip : Option ℕ
  pub commands_seen : ℕ
  pub md_bytes_sent : ℕ
  pub md_send_errors : ℕ
  pub px_chunks_seen : ℕ
  pub self_sourced_seen : ℕ
  pub crd_count_armed : Bool
  pub crds_counted : ℕ
  pub prev_ns : ℕ
  pub log_lines : List LogEntry

abbrev or_default : {A : Type 0} → Option A → A → A
or_default none a = a
or_default (some b) a = b

abbrev latency_ns : Option ℕ → Option ℕ
latency_ns none = none
latency_ns (some us) = some (u64 (us * 1000))

-- The profile of the emulated readout that the options ask for.
unfoldable pub profile_of : DaemonOptions → Profile
unfolding profile_defaults
profile_of o = record profile_defaults {
  seed = or_default o.seed profile_defaults.seed;
  shape_bytes_per_s = or_default o.rate profile_defaults.shape_bytes_per_s;
  hits_per_frame = or_default o.hits_per_frame profile_defaults.hits_per_frame;
  lost_per_frame = or_default o.lost_per_frame profile_defaults.lost_per_frame;
  pattern = or_default o.pattern profile_defaults.pattern;
  ack_latency_ns = or_default (latency_ns o.ack_latency_us) profile_defaults.ack_latency_ns;
}

-- The state in front of the main loop, once the sockets are open.
unfoldable pub start : DaemonOptions → Udp → Addr → Udp → ℕ → Daemon
unfolding profile_of
start o ctl local data_udp now = record {
  options = o;
  emu = emu_init (profile_of o);
  ctl_udp = ctl;
  ctl_local = local;
  data_udp = data_udp;
  client_known = false;
  stray_crd_pending = o.stray_crd;
  data_remote_ip = none;
  commands_seen = 0;
  md_bytes_sent = 0;
  md_send_errors = 0;
  px_chunks_seen = 0;
  self_sourced_seen = 0;
  crd_count_armed = false;
  crds_counted = 0;
  prev_ns = now;
  log_lines = [];
}

-- `format_ipv4`: the bytes of the address in the order in which they are stored.
unfoldable pub format_ipv4 : ℕ → Text
format_ipv4 addr = decimal 3 (addr % 256) (
    b'.'
    ∷ decimal 3 (addr / 256 % 256)
        (b'.' ∷ decimal 3 (addr / 65536 % 256) (b'.' ∷ decimal 3 (addr / 16777216 % 256) [])))

-- `ns_diff`
unfoldable pub ns_diff : ℕ → ℕ → ℕ
ns_diff from to = to - from

abbrev same_ip : Option ℕ → ℕ → Bool
same_ip none ip = false
same_ip (some old) ip = old == ip

-- `send_stray_crd`
unfoldable pub send_stray_crd : Udp → Udp
send_stray_crd u = (send_exact (replicate 8 0) u).1

-- The count of the chunks, where the datagram is one.
abbrev pub chunks_after : List ℕ → ℕ → ℕ
chunks_after bytes seen = if length bytes == px_chunk_size then u64 (seen + 1) else seen

-- Whether the datagram is the chunk to be dropped.
abbrev pub is_dropped : List ℕ → ℕ → ℕ → Bool
is_dropped bytes drop seen =
    length bytes == px_chunk_size && not (drop == 0) && chunks_after bytes seen == drop

abbrev pub is_upload : List ℕ → Bool
is_upload bytes = length bytes == 8 && get_or bytes 6 0 == 0x12

-- What follows the bookkeeping of addresses: the delivery.
unfoldable pub deliver : List ℕ → Daemon → Daemon
deliver bytes d = record d {
  px_chunks_seen = chunks_after bytes d.px_chunks_seen;
  crd_count_armed = d.crd_count_armed || is_upload bytes;
  emu =
      if is_dropped bytes d.options.drop_px_chunk d.px_chunks_seen
      then d.emu
      else (cmd_in bytes d.emu).1;
}

module _ (inet_pton : Text → Option ℕ) where
  -- `track_client`
  unfoldable pub track_client : Daemon → Daemon
  unfolding format_ipv4
  track_client d =
      let ip = d.ctl_udp.addr_remote.host in
      let (res, udp) =
        set_remote (inet_pton (format_ipv4 ip)) d.options.client_data_port d.data_udp in
      if same_ip d.data_remote_ip ip
      then d
      else if res == 0
      then record d { data_udp = udp; data_remote_ip = some ip }
      else record d { data_udp = udp }

  -- A datagram that seems to come from the daemon itself is answered at the loopback address.
  unfoldable pub reply_to_self : Daemon → Daemon
  reply_to_self d =
      let from = d.ctl_udp.addr_remote in
      let (res, ctl) = set_remote (inet_pton (codes "127.0.0.1")) d.options.ctl_port d.ctl_udp in
      if from.host == d.ctl_local.host && from.port == d.ctl_local.port
      then record d { ctl_udp = ctl; self_sourced_seen = u64 (d.self_sourced_seen + 1) }
      else d

  -- A datagram of the control socket, which has been received.
  unfoldable pub take_datagram : List ℕ → Daemon → Daemon
  unfolding track_client reply_to_self deliver send_stray_crd
  take_datagram bytes d =
      let counted = record d { client_known = true; commands_seen = u64 (d.commands_seen + 1) } in
      let delivered = deliver bytes (track_client (reply_to_self counted)) in
      if delivered.stray_crd_pending && not d.client_known
      then record delivered {
        ctl_udp = send_stray_crd delivered.ctl_udp;
        stray_crd_pending = false;
      }
      else delivered

  -- The loop over the control datagrams of a tick, with `left` rounds to go.
  unfoldable pub drain : ℕ → Daemon → Daemon
  unfolding take_datagram
  drain zero d = d
  drain (suc left) d =
      let (r, ctl) = recv recv_buf_size d.ctl_udp in
      elim r [
        | ok bytes ↦ drain left (take_datagram bytes (record d { ctl_udp = ctl }))
        | err e ↦ elim (e == eintr) [
          | true ↦ drain left (record d { ctl_udp = ctl })
          | false ↦ record d { ctl_udp = ctl }
        ]
      ]

-- A response that has been taken from the emulated readout.
unfoldable pub send_crd : List ℕ → Daemon → Daemon
send_crd crd d =
    let counted = if d.crd_count_armed then u64 (d.crds_counted + 1) else d.crds_counted in
    let drops = not (d.options.drop_crd == 0) && counted == d.options.drop_crd in
    record d {
      crds_counted = counted;
      ctl_udp = if drops then d.ctl_udp else (send_exact crd d.ctl_udp).1;
    }

unfoldable pub send_crds : ℕ → Daemon → Daemon
unfolding send_crd
send_crds zero d = d
send_crds (suc fuel) d =
    let (r, emu) = crd_out d.emu in
    elim r [ none ↦ d | some crd ↦ send_crds fuel (send_crd crd (record d { emu = emu })) ]

-- Data that have been taken from the emulated readout.
unfoldable pub send_md : List ℕ → Daemon → Daemon
send_md bytes d =
    let (res, udp) = send_exact bytes d.data_udp in
    if res == 0
    then record d { data_udp = udp; md_bytes_sent = u64 (d.md_bytes_sent + length bytes) }
    else record d { data_udp = udp; md_send_errors = u64 (d.md_send_errors + 1) }

unfoldable pub send_mds : ℕ → Daemon → Daemon
unfolding send_md
send_mds zero d = d
send_mds (suc fuel) d =
    let (r, emu) = data_out md_datagram_max_bytes d.emu in
    elim r [
      | none ↦ record d { emu = emu }
      | some bytes ↦ send_mds fuel (send_md bytes (record d { emu = emu }))
    ]

-- The rounds of the pump that a stage has left in its frame.
abbrev pub stage_work : Stage → (hits px_index : ℕ) → Bool → ℕ
stage_work Stage.new_frame hits px_index offset_sent = 2 * hits + 9
stage_work Stage.start_lsb hits px_index offset_sent = 2 * hits + 8
stage_work Stage.start_msb hits px_index offset_sent = 2 * hits + 7
stage_work Stage.pixels hits px_index offset_sent =
    2 * (hits - px_index) + 6 - (if offset_sent then 1 else 0)
stage_work Stage.end_lsb hits px_index offset_sent = 4
stage_work Stage.end_msb hits px_index offset_sent = 3
stage_work Stage.lost hits px_index offset_sent = 2
stage_work Stage.finished hits px_index offset_sent = 1
stage_work Stage.idle hits px_index offset_sent = 0

-- The rounds that a stream has left, in this frame and the next ones.
abbrev pub work : Stream → ℕ
work s =
    (s.frames_total - s.frame_index - 1) * (2 * s.hits + 9)
    + stage_work s.stage s.hits s.px_index s.offset_sent

-- What is staged, and what can still be.
abbrev pub data_left : Stream → ℕ
data_left s = (length s.buf - s.buf_pos) / 6 + work s

-- The commands of the log, in batches.
unfoldable pub read_log : ℕ → Emu → List LogEntry × Emu
read_log zero emu = ([], emu)
read_log (suc fuel) emu =
    let (entries, emu') = log_read log_drain_batch emu in
    let (more, emu'') = read_log fuel emu' in
    if length entries == 0 then ([], emu') else (entries ++ more, emu'')

-- `drain_log`, if there is a file.
unfoldable pub drain_log : Daemon → Daemon
unfolding read_log
drain_log d =
    let (entries, emu) = read_log (d.emu.log_count + 1) d.emu in
    elim d.options.log_path [
      | none ↦ d
      | some path ↦ record d { emu = emu; log_lines = d.log_lines ++ entries }
    ]

-- The second half of a tick: the clock, the responses, the data, and the log.
unfoldable pub answer : ℕ → Daemon → Daemon
unfolding send_crds send_mds drain_log ns_diff
answer now d =
    let timed = record d { emu = advance (ns_diff d.prev_ns now) d.emu; prev_ns = now } in
    let responded = send_crds (timed.emu.crd_count + 1) timed in
    let sent = send_mds (data_left responded.emu.stream + 1) responded in
    drain_log (if timed.client_known then sent else timed)

-- The main loop, over the readings of the clock up to the stop signal, and the last log entries.
unfoldable pub run : (Text → Option ℕ) → List ℕ → Daemon → Daemon
unfolding drain answer drain_log
run inet_pton [] d = drain_log d
run inet_pton (now ∷ ticks) d =
    run inet_pton ticks (answer now (drain inet_pton max_drain_per_tick d))
