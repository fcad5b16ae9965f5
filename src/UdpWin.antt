-- ===== src/UdpWin.antt =====
-- c/src/udp_win.c: the UDP session on Windows. The socket is what Winsock makes of it: an error of
-- recvfrom(), with its code less one, or a datagram. Other than on POSIX, one that is longer than the
-- buffer is an error, WSAEMSGSIZE, which consumes it and tells its sender; the errors that the socket
-- has in store are others. An idle socket yields WSAETIMEDOUT. Sends and locks are as in udp_nix.c, but
-- that a lock that its owner abandoned is granted under a code of its own.
pub mod Receive
pub mod Open
use libkatherine.Base.{
  ℕ, zero, suc, ◌+◌, ◌-◌, Bool, true, false, List, [], ◌∷◌, ◌++◌, ltb, ◌==◌, ◌||◌,
}
use libkatherine.Base.{if◌then◌else◌, length, drop, take, eagain, eintr, Option, none, some}
use libkatherine.Udp.{Addr, Udp, Incoming, Outcome, Received, err, ok}
use libkatherine.Udp.{failed, datagram, refused, accepted, from_pinned_remote, pin_max_discards}

abbrev pub wsaeintr : ℕ
wsaeintr = 10004

abbrev pub wsaewouldblock : ℕ
wsaewouldblock = 10035

abbrev pub wsaemsgsize : ℕ
wsaemsgsize = 10040

abbrev pub wsaetimedout : ℕ
wsaetimedout = 10060

-- `recv_error_code`
unfoldable pub recv_error_code : ℕ → ℕ
recv_error_code e =
    if e == wsaetimedout || e == wsaewouldblock then eagain else if e == wsaeintr then eintr else e

-- What recvfrom() comes to: SOCKET_ERROR with a code, SOCKET_ERROR for a datagram that is too long, or
-- a datagram.
pub data Arrival : Type 0 where
  fails : ℕ → Arrival
  too_long : Addr → Arrival
  arrives : Addr → List ℕ → Arrival

recv_next : ℕ → List Incoming → Udp → Arrival × Udp
recv_next count [] u = (fails wsaetimedout, u)
recv_next count (failed e ∷ rest) u = (fails (suc e), record u { inbox = rest })
recv_next count (datagram from bytes ∷ rest) u = (
  if ltb count (length bytes) then too_long from else arrives from bytes,
  record u { inbox = rest },
)

unfoldable pub recvfrom : ℕ → Udp → Arrival × Udp
unfolding recv_next
recvfrom count u = recv_next count u.inbox u

-- The loop of `recv_pinned`, with `left` rounds to go.
unfoldable pub recv_pinned : ℕ → ℕ → Udp → Received × Udp
recv_pinned zero count u = (err eagain, u)
recv_pinned (suc left) count u =
    let (r, u') = recvfrom count u in
    let rest = recv_pinned left count u' in
    elim r [
      | fails e ↦ (err (recv_error_code e), u')
      | too_long from ↦
          if from_pinned_remote u from then (err (recv_error_code wsaemsgsize), u') else rest
      | arrives from bytes ↦ if from_pinned_remote u from then (ok bytes, u') else rest
    ]

-- `recv_datagram`; on an unpinned session recvfrom() writes the sender into the session, that of a
-- datagram that is too long as well.
unfoldable pub recv_datagram : ℕ → Udp → Received × Udp
recv_datagram count u =
    let (r, u') = recvfrom count u in
    if u.remote_pinned then recv_pinned pin_max_discards count u else elim r [
      | fails e ↦ (err (recv_error_code e), u')
      | too_long from ↦ (err (recv_error_code wsaemsgsize), record u' { addr_remote = from })
      | arrives from bytes ↦ (ok bytes, record u' { addr_remote = from })
    ]

-- `katherine_udp_recv`
unfoldable pub recv : ℕ → Udp → Received × Udp
recv count u = recv_datagram count u

-- The loop of `katherine_udp_recv_exact`, with what has been received so far; the fuel is what the
-- socket holds.
unfoldable pub recv_exact_loop : ℕ → ℕ → List ℕ → Udp → Received × Udp
recv_exact_loop zero count got u = if ltb (length got) count then (err eagain, u) else (ok got, u)
recv_exact_loop (suc fuel) count got u =
    let (r, u') = recv_datagram (count - length got) u in
    let more : Received × Udp = elim r [
      | err e ↦ (err e, u')
      | ok bytes ↦ recv_exact_loop fuel count (got ++ bytes) u'
    ] in
    if ltb (length got) count then more else (ok got, u)

-- `katherine_udp_recv_exact`
unfoldable pub recv_exact : ℕ → Udp → Received × Udp
recv_exact count u = recv_exact_loop (length u.inbox) count [] u

-- The loop of `katherine_udp_send_exact` over the outcomes that sendto() has in store.
unfoldable pub send_loop : List Outcome → List ℕ → Udp → ℕ × Udp
send_loop [] rest u = (0, record u { outcomes = []; sent = (u.addr_remote, rest) ∷ u.sent })
send_loop (refused e ∷ os) rest u = (suc e, record u { outcomes = os })
send_loop (accepted n ∷ os) rest u =
    let u' = record u { outcomes = os; sent = (u.addr_remote, take n rest) ∷ u.sent } in
    let more = send_loop os (drop n rest) u' in if ltb n (length rest) then more else (0, u')

-- `katherine_udp_send_exact`
unfoldable pub send_exact : List ℕ → Udp → ℕ × Udp
send_exact bytes u = send_loop u.outcomes bytes u

-- `katherine_udp_set_remote`, by what inet_pton() makes of the text; `last_error` is what
-- WSAGetLastError() has after it.
unfoldable pub set_remote : Option ℕ → ℕ → ℕ → Udp → ℕ × Udp
set_remote none last_error port u = (last_error, u)
set_remote (some host) last_error port u =
    (0, record u { addr_remote = record { host = host; port = port } })

-- `katherine_udp_pin_remote`
unfoldable pub pin_remote : Udp → Udp
pin_remote u = record u { remote_pinned = true }

abbrev pub wait_abandoned : ℕ
wait_abandoned = 0x80

-- What WaitForSingleObject() makes of its next outcome: the mutex is owned from 0 on, which is
-- WAIT_OBJECT_0, and from WAIT_ABANDONED on.
lock_next : List ℕ → Udp → ℕ × Udp
lock_next [] u = (0, record u { held = u.held + 1 })
lock_next (code ∷ rest) u =
    let owned = code == 0 || code == wait_abandoned in
    (code, record u { locks = rest; held = if owned then u.held + 1 else u.held })

-- `katherine_udp_mutex_lock`
unfoldable pub mutex_lock : Udp → ℕ × Udp
unfolding lock_next
mutex_lock u = lock_next u.locks u

-- `katherine_udp_mutex_unlock`: ReleaseMutex() returns 1 where the mutex is owned, and 0 where not.
unfoldable pub mutex_unlock : Udp → ℕ × Udp
mutex_unlock u = (if u.held == 0 then 0 else 1, record u { held = u.held - 1 })
