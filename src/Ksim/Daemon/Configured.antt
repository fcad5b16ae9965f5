-- ===== src/Ksim/Daemon/Configured.antt =====
-- A configuration of c/src/config.c that reaches the daemon of tools/ksim/main.c in one tick.
use libkatherine.Base.{ℕ, ◌≤◌}
use libkatherine.Base.{if◌then◌else◌, List, [], ◌∷◌, length, Bool}
use libkatherine.Udp.{Addr}
use libkatherine.Config.{Config, test_pulse_bytes}
use libkatherine.Config.Script.{said, Line}
use libkatherine.Config.Transcript.{lines}
use libkatherine.Command.CmdType
use libkatherine.Command.HwCmdType
use libkatherine.Ksim.Daemon.{Daemon}
use libkatherine.Ksim.Daemon.Deliver.{AllFit}

-- Datagrams from one client.
abbrev pub from_client : Addr → List (List ℕ) → List (Addr × List ℕ)
from_client from [] = []
from_client from (bytes ∷ more) = (from, bytes) ∷ from_client from more

abbrev tail_of : List Line → List Line
tail_of [] = []
tail_of (l ∷ ls) = ls

-- At most `n` datagrams, which fit the receive buffer of the daemon.
record Fits (n : ℕ) (from : Addr) (xs : List (List ℕ)) : Type 0 where
  count : length (from_client from xs) ≤ n
  all : AllFit (from_client from xs)

-- The datagrams of a configuration after its matrix and the two commands that load it.
abbrev after_matrix : (ℕ → Bool) → Config → Bool → List (List ℕ)
after_matrix has_memory config b =
    said (tail_of (lines has_memory config))
      (if b then test_pulse_bytes config.test_pulse_config ∷ [] else [])
