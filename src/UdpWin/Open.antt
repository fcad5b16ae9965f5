-- ===== src/UdpWin/Open.antt =====
-- c/src/udp_win.c: opening and closing sessions. `Held` counts what the process holds of Winsock.
use libkatherine.Base.{ℕ, ◌+◌, ◌-◌, ◌≡◌, Bool, false, ltb, if◌then◌else◌, ◌&&◌}
use libkatherine.Base.{Option, none, some, List, []}
use libkatherine.Udp.{Udp, Incoming}

-- The results of the system calls: 0 is success. Where inet_pton() fails, the result is what
-- WSAGetLastError() has; Winsock sets it where the family is wrong, not where the text is no address.
pub record Calls : Type 0 where
  pub startup : ℕ
  pub socket : ℕ
  pub local_addr : Bool
  pub bind : ℕ
  pub timeout : ℕ
  pub remote_addr : Option ℕ
  pub last_error : ℕ
  pub mutex : ℕ
  pub inbox : List Incoming

pub record Held : Type 0 where
  pub startups : ℕ
  pub sockets : ℕ
  pub mutexes : ℕ

abbrev pub Opened : Type 0
Opened = ℕ × Held × Option Udp

abbrev started : Held → Held
started h = record h { startups = h.startups + 1 }

-- WSACleanup()
abbrev cleaned : Held → Held
cleaned h = record h { startups = h.startups - 1 }

abbrev with_socket : Held → Held
with_socket h = record h { sockets = h.sockets + 1 }

-- closesocket()
abbrev closed : Held → Held
closed h = record h { sockets = h.sockets - 1 }

-- The labels from `err_local_addr` to `err_mutex`.
abbrev close_with : ℕ → Held → Opened
close_with res h = (res, cleaned (closed h), none)

abbrev fresh : Calls → ℕ → ℕ → Udp
fresh calls host port = record {
  addr_remote = record { host = host; port = port };
  remote_pinned = false;
  inbox = calls.inbox;
  outcomes = [];
  locks = [];
  sent = [];
  held = 0;
}

-- The part from `inet_pton` of the remote address on.
remote_part : Calls → Option ℕ → ℕ → Held → Opened
remote_part calls none port h = close_with calls.last_error h
remote_part calls (some host) port h =
    if ltb 0 calls.mutex
    then close_with calls.mutex h
    else (0, record h { mutexes = h.mutexes + 1 }, some (fresh calls host port))

-- `katherine_udp_init_bound`
unfoldable pub init_bound : Calls → ℕ → ℕ → Held → Opened
unfolding remote_part
init_bound calls port timeout_ms h =
    let h₁ = started h in
    let h₂ = with_socket h₁ in
    if ltb 0 calls.startup
    then (calls.startup, h, none)
    else if ltb 0 calls.socket
    then (calls.socket, cleaned h₁, none)
    else if calls.local_addr
    then if ltb 0 calls.bind
      then close_with calls.bind h₂
      else if ltb 0 timeout_ms && ltb 0 calls.timeout
      then close_with calls.timeout h₂
      else remote_part calls calls.remote_addr port h₂
    else close_with calls.last_error h₂

-- `katherine_udp_fini`
unfoldable pub fini : Held → Held
fini h = record { startups = h.startups - 1; sockets = h.sockets - 1; mutexes = h.mutexes - 1 }

-- What opening a session promises: a failure holds nothing, its result is an error but where
-- inet_pton() refuses the remote address without an error of Winsock, and what was opened is closed
-- by `katherine_udp_fini`.
pub record Opens (calls : Calls) (h : Held) (r : Opened) : Type 0 where
  pub failed : r.2 ≡ none → r.1 ≡ h
  pub reported : r.2 ≡ none → r.0 ≡ 0 → (calls.remote_addr ≡ none) × (calls.last_error ≡ 0)
  pub succeeded : (u : Udp) → r.2 ≡ some u → (r.0 ≡ 0) × (fini r.1 ≡ h) × (u.remote_pinned ≡ false)
