-- ===== src/Acq/Begin.antt =====
-- c/src/acquisition.c: `katherine_acquisition_init`, `_begin`, `_stop` and `_abort`. They act on the
-- acquisition and on the control socket. Whether malloc() succeeds is an argument, so are the clock
-- and the acquisition time in nanoseconds, of which the configuration holds the tick count.
use libkatherine.Base.{ℕ, zero, suc, ◌+◌, ◌==◌, ltb, ◌&&◌, Bool, true, false, if◌then◌else◌}
use libkatherine.Base.{[], replicate, enomem, einval}
use libkatherine.Udp.{Udp, Result, err, ok, mutex_lock, mutex_unlock}
use libkatherine.Session.{Session, ◌>>◌, locked}
use libkatherine.Command.{cmd6_i64}
use libkatherine.Command.CmdType
use libkatherine.Config.{Config, set_seq_readout_start, set_acq_mode}
use libkatherine.Config.Configure.{configure}
use libkatherine.Acq.{Acq, State, Mode}

-- `READOUT_DATA_DRIVEN`
abbrev pub data_driven : ℕ
data_driven = 1

-- The number of a mode; a fourth one stands for those that the enumeration does not name.
abbrev pub mode_number : Mode → ℕ
mode_number Mode.mode_toa_tot = 0
mode_number Mode.mode_only_toa = 1
mode_number Mode.mode_event_itot = 2
mode_number Mode.mode_other = 3

-- `katherine_acquisition_init` on storage whose contents are `acq`: what is not assigned stays as it
-- was. The bytes of a new buffer are taken to be zero.
unfoldable pub init : Bool → Bool → (md_size pixel_size report fail : ℕ) → Acq → ℕ × Acq
init has_md has_pixels md_size pixel_size report fail acq =
    let cleared = record acq {
      state = State.not_started;
      aborted = false;
      frame_active = false;
      handlers = record {
        pixels_received = false;
        frame_started = false;
        frame_ended = false;
        data_received = false;
      };
      md_buffer_size = md_size;
    } in
    let buffered = record cleared {
      md_buffer = replicate (md_size + 8) 0;
      pixel_buffer_size = pixel_size;
      pixel_buffer = [];
      pixel_buffer_valid = 0;
    } in
    let timed = record buffered { report_timeout = report; fail_timeout = fail } in
    if has_md then if has_pixels then (0, timed) else (enomem, buffered) else (enomem, cleared)

-- The commands of `katherine_acquisition_begin` up to the start.
unfoldable pub prepare : (ℕ → Bool) → Config → ℕ → Mode → Bool → Session
prepare has_memory config readout_mode acq_mode fast_vco_enabled =
    configure has_memory config
    >> (set_seq_readout_start readout_mode >> set_acq_mode (mode_number acq_mode) fast_vco_enabled)

-- What is assigned before the start command.
unfoldable pub running : Config → ℕ → Acq → Acq
running config duration acq = record acq {
  state = State.running;
  completed_frames = 0;
  requested_frames = config.no_frames;
  requested_frame_duration = duration;
  dropped_measurement_data = 0;
  pixel_buffer = [];
  pixel_buffer_valid = 0;
  pixel_buffer_max_valid = 0;
  last_toa_offset = 0;
  frame_active = false;
}

abbrev pub Outcome : Type 0
Outcome = Result (Unit {0}) × Udp × Acq

-- The start command, under the lock, after which the clock is read.
abbrev pub start_locked : ℕ → ℕ → Acq → ℕ × Udp → Outcome
start_locked now readout_mode acq (suc e, u) = (err (suc e), u, acq)
start_locked now readout_mode acq (zero, u) =
    let (res, u') = cmd6_i64 CmdType.acquisition_start readout_mode u in
    (res, mutex_unlock u', record acq { acq_start_time = now })

-- What follows the commands.
abbrev pub begin_rest : ℕ → ℕ → Config → ℕ → Acq → Result (Unit {0}) × Udp → Outcome
begin_rest now duration config readout_mode acq (err e, u) = (err e, u, acq)
begin_rest now duration config readout_mode acq (ok a, u) =
    start_locked now readout_mode (running config duration acq) (mutex_lock u)

-- `katherine_acquisition_begin`
unfoldable pub begin :
    (ℕ → Bool) → (now duration : ℕ) → Config → ℕ → Mode → Bool → Bool → Udp → Acq → Outcome
unfolding prepare running
begin has_memory now duration config readout_mode acq_mode fast_vco_enabled decode_data u acq =
    let chosen = record acq {
      acq_mode = acq_mode;
      readout_mode = readout_mode;
      fast_vco_enabled = fast_vco_enabled;
      decode_data = decode_data;
    } in
    let prepared = prepare has_memory config readout_mode acq_mode fast_vco_enabled u in
    if readout_mode == data_driven && ltb 1 config.no_frames
    then (err einval, u, chosen)
    else begin_rest now duration config readout_mode chosen prepared

-- `katherine_acquisition_stop`
unfoldable pub stop : Acq → Session
stop acq = locked (cmd6_i64 CmdType.acquisition_stop acq.readout_mode)

abbrev aborts : Acq → Result (Unit {0}) × Udp → Outcome
aborts acq (err e, u) = (err e, u, acq)
aborts acq (ok a, u) = (ok tt, u, record acq { aborted = true })

-- `katherine_acquisition_abort`
unfoldable pub abort : Udp → Acq → Outcome
unfolding stop
abort u acq = aborts acq (stop acq u)
