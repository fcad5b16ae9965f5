-- ===== src/Ksim/Main.antt =====
-- tools/ksim/main.c: `main`, from the command line to the exit code, with the sockets and the log file
-- that it holds. What the operating system does is a parameter: the calls that open the sockets, the
-- errors of fopen() and of installing the stop handler (0 is success), the address that the control
-- socket is bound to, inet_pton(), and the readings of the clock up to the stop signal.
use libkatherine.Base.{
  ℕ, ◌+◌, ◌-◌, ◌≡◌, refl, arith, ltb, if◌then◌else◌, List, Option, none, some, Text,
}
use mathlib.Core.Path.{subst}
use libkatherine.Udp.{Addr, Udp}
use libkatherine.Udp.Open.{Calls, Opened, IsOpened, init_bound, init_bound-IsOpened, fini}
use libkatherine.Ksim.Options.{
  DaemonOptions, Parsed, exits, runs, parse_options, exit_success, exit_failure,
}
use libkatherine.Ksim.Daemon.{Daemon, start, run}

pub record Host : Type 0 where
  pub ctl_calls : Calls
  pub data_calls : Calls
  pub ctl_local : Addr
  pub fopen : ℕ
  pub stop_handler : ℕ
  pub inet_pton : Text → Option ℕ
  pub first_ns : ℕ
  pub ticks : List ℕ

-- The open sockets and files.
pub record Held : Type 0 where
  pub sockets : ℕ
  pub files : ℕ

-- How `main` ends: the exit code, the state after the main loop if it was reached, and what is held.
abbrev pub Ended : Type 0
Ended = ℕ × Option Daemon × Held

abbrev pub ctl_recv_timeout_ms : ℕ
ctl_recv_timeout_ms = 1

abbrev close_log : DaemonOptions → Held → Held
close_log o h = elim o.log_path [ none ↦ h | some path ↦ record h { files = h.files - 1 } ]

-- The two sockets are closed.
abbrev close_both : Held → Held
close_both h = record h { sockets = fini (fini h.sockets) }

-- The main loop, once everything is open, and what follows it.
abbrev with_handler : Host → DaemonOptions → Udp → Udp → Held → Ended
with_handler host o ctl data_udp h =
    let d = start o ctl host.ctl_local data_udp host.first_ns in
    if ltb 0 host.stop_handler
    then (exit_failure, none, close_both (close_log o h))
    else (exit_success, some (run host.inet_pton host.ticks d), close_both (close_log o h))

abbrev with_sockets : Host → DaemonOptions → Udp → Udp → Held → Ended
with_sockets host o ctl data_udp h = elim o.log_path [
  | none ↦ with_handler host o ctl data_udp h
  | some path ↦
      if ltb 0 host.fopen
      then (exit_failure, none, close_both h)
      else with_handler host o ctl data_udp (record h { files = h.files + 1 })
]

data_opened : Host → DaemonOptions → Udp → ℕ → Opened → Ended
data_opened host o ctl files (res, sockets, none) =
    (exit_failure, none, record { sockets = fini sockets; files = files })
data_opened host o ctl files (res, sockets, some data_udp) =
    with_sockets host o ctl data_udp (record { sockets = sockets; files = files })

ctl_opened : Host → DaemonOptions → ℕ → Opened → Ended
ctl_opened host o files (res, sockets, none) =
    (exit_failure, none, record { sockets = sockets; files = files })
ctl_opened host o files (res, sockets, some ctl) =
    data_opened host o ctl files (init_bound host.data_calls 0 0 sockets)

parsed : Host → Held → Parsed → Ended
parsed host h (exits code) = (code, none, h)
parsed host h (runs o) =
    ctl_opened host o h.files (init_bound host.ctl_calls 0 ctl_recv_timeout_ms h.sockets)

-- `main`, of the arguments behind the name of the program.
unfoldable pub main : Host → List Text → Held → Ended
unfolding parsed ctl_opened data_opened
main host argv h = parsed host h (parse_options argv)

data_opened-held :
    (host : Host) (o : DaemonOptions) (ctl : Udp) (files sockets : ℕ) (r : Opened)
    → IsOpened (sockets + 1) r
    → (data_opened host o ctl files r).2 ≡ record { sockets = sockets; files = files }
unfolding data_opened fini
data_opened-held host o ctl files sockets (res, n, none) p = ground (arith, p.failed refl)
data_opened-held host o ctl files sockets (res, n, some u) p = ground (arith, p.succeeded u refl)

ctl_opened-held :
    (host : Host) (o : DaemonOptions) (files sockets : ℕ) (r : Opened)
    → IsOpened sockets r
    → (ctl_opened host o files r).2 ≡ record { sockets = sockets; files = files }
unfolding ctl_opened
ctl_opened-held host o files sockets (res, n, none) p = ground (arith, p.failed refl)
ctl_opened-held host o files sockets (res, n, some ctl) p =
    let same = (p.succeeded ctl refl).1 in
    data_opened-held host o ctl files sockets (init_bound host.data_calls 0 0 n) (
      subst (λ k. IsOpened k (init_bound host.data_calls 0 0 n)) same
        (init_bound-IsOpened host.data_calls 0 0 n))

parsed-held : (host : Host) (h : Held) (r : Parsed) → (parsed host h r).2 ≡ h
unfolding parsed
parsed-held host h (exits code) = refl
parsed-held host h (runs o) =
    ctl_opened-held host o h.files h.sockets
      (init_bound host.ctl_calls 0 ctl_recv_timeout_ms h.sockets)
      (init_bound-IsOpened host.ctl_calls 0 ctl_recv_timeout_ms h.sockets)

-- Whatever the command line and the operating system make of it, the daemon ends with the sockets and
-- the files open that were open before: an exit at the command line opens none, a failure to open a
-- socket or the log or to install the stop handler closes what was opened until then, and so does the
-- end of the main loop.
pub main-held : (host : Host) (argv : List Text) (h : Held) → (main host argv h).2 ≡ h
unfolding main
main-held host argv h = parsed-held host h (parse_options argv)
