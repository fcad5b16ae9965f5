-- ===== src/Udp.antt =====
-- c/src/udp_nix.c: the UDP session. The socket is what the operating system makes of it: the
-- datagrams and errors that recvfrom() will yield, in order, and the outcomes of sendto() and of
-- pthread_mutex_lock(). An idle socket yields EAGAIN, as SO_RCVTIMEO documents; where no outcome is
-- given, sendto() takes the whole message and the lock is granted. `sent` is the trace of what went
-- out, the latest first, and `held` counts the locks that were taken and not yet released.
pub mod Receive
pub mod Send
pub mod Open
use libkatherine.Base.{ℕ, zero, suc, ◌+◌, ◌-◌, Bool, true, List, [], ◌∷◌, ◌++◌, if◌then◌else◌, ltb}
use libkatherine.Base.{◌==◌, length, take, drop, eagain, einval, Option, none, some}

-- `struct sockaddr_in`
pub record Addr : Type 0 where
  pub host : ℕ
  pub port : ℕ

-- What recvfrom() yields: an error, or a datagram with its sender. An errno is never 0: `failed e`
-- is errno e + 1.
pub data Incoming : Type 0 where
  failed : ℕ → Incoming
  datagram : Addr → List ℕ → Incoming

-- What sendto() returns: errno e + 1, or the number of bytes taken.
pub data Outcome : Type 0 where
  refused : ℕ → Outcome
  accepted : ℕ → Outcome

-- `katherine_udp_t`
pub record Udp : Type 0 where
  pub addr_remote : Addr
  pub remote_pinned : Bool
  pub inbox : List Incoming
  pub outcomes : List Outcome
  pub locks : List ℕ
  pub sent : List (Addr × List ℕ)
  pub held : ℕ

-- The result of a fallible operation: an error code, or what it returns on success.
pub data Result (A : Type 0) : Type 0 where
  err : ℕ → Result A
  ok : A → Result A

abbrev pub Received : Type 0
Received = Result (List ℕ)

recv_next : ℕ → List Incoming → Udp → Incoming × Udp
recv_next count [] u = (failed (eagain - 1), u)
recv_next count (failed e ∷ rest) u = (failed e, record u { inbox = rest })
recv_next count (datagram from bytes ∷ rest) u =
    (datagram from (take count bytes), record u { inbox = rest })

-- recvfrom() into a buffer of `count` bytes; the rest of a longer datagram is lost.
unfoldable pub recvfrom : ℕ → Udp → Incoming × Udp
unfolding recv_next
recvfrom count u = recv_next count u.inbox u

unfoldable pub from_pinned_remote : Udp → Addr → Bool
from_pinned_remote u addr = addr.host == u.addr_remote.host

-- `KATHERINE_UDP_PIN_MAX_DISCARDS`
abbrev pub pin_max_discards : ℕ
pin_max_discards = 32

-- The loop of `recv_pinned`, with `left` rounds to go.
unfoldable pub recv_pinned : ℕ → ℕ → Udp → Received × Udp
recv_pinned zero count u = (err eagain, u)
recv_pinned (suc left) count u =
    let (r, u') = recvfrom count u in
    let rest = recv_pinned left count u' in
    elim r [
      | failed e ↦ (err (suc e), u')
      | datagram from bytes ↦ if from_pinned_remote u from then (ok bytes, u') else rest
    ]

unfoldable pub recv_datagram : ℕ → Udp → Received × Udp
recv_datagram count u =
    let (r, u') = recvfrom count u in
    if u.remote_pinned then recv_pinned pin_max_discards count u else elim r [
      | failed e ↦ (err (suc e), u')
      | datagram from bytes ↦ (ok bytes, record u' { addr_remote = from })
    ]

-- `katherine_udp_recv`
unfoldable pub recv : ℕ → Udp → Received × Udp
recv count u = recv_datagram count u

-- The loop of `katherine_udp_recv_exact`, with what has been received so far. Each round takes
-- something from the socket, so as much fuel as it holds is enough: where the fuel is out the socket
-- is idle.
unfoldable pub recv_exact_loop : ℕ → ℕ → List ℕ → Udp → Received × Udp
recv_exact_loop zero count got u = if ltb (length got) count then (err eagain, u) else (ok got, u)
recv_exact_loop (suc fuel) count got u =
    let (r, u') = recv_datagram (count - length got) u in
    let more : Received × Udp = elim r [
      | err e ↦ (err e, u')
      | ok bytes ↦ recv_exact_loop fuel count (got ++ bytes) u'
    ] in
    if ltb (length got) count then more else (ok got, u)

-- `katherine_udp_recv_exact`
unfoldable pub recv_exact : ℕ → Udp → Received × Udp
recv_exact count u = recv_exact_loop (length u.inbox) count [] u

-- The loop of `katherine_udp_send_exact` over the outcomes that sendto() has in store.
unfoldable pub send_loop : List Outcome → List ℕ → Udp → ℕ × Udp
send_loop [] rest u = (0, record u { outcomes = []; sent = (u.addr_remote, rest) ∷ u.sent })
send_loop (refused e ∷ os) rest u = (suc e, record u { outcomes = os })
send_loop (accepted n ∷ os) rest u =
    let u' = record u { outcomes = os; sent = (u.addr_remote, take n rest) ∷ u.sent } in
    let more = send_loop os (drop n rest) u' in if ltb n (length rest) then more else (0, u')

-- `katherine_udp_send_exact`
unfoldable pub send_exact : List ℕ → Udp → ℕ × Udp
send_exact bytes u = send_loop u.outcomes bytes u

-- `katherine_udp_set_remote`; the address is what inet_pton() makes of the text, if it is one.
unfoldable pub set_remote : Option ℕ → ℕ → Udp → ℕ × Udp
set_remote none port u = (einval, u)
set_remote (some host) port u = (0, record u { addr_remote = record { host = host; port = port } })

-- `katherine_udp_pin_remote`
unfoldable pub pin_remote : Udp → Udp
pin_remote u = record u { remote_pinned = true }

-- What pthread_mutex_lock() makes of its next outcome.
unfoldable pub lock_next : List ℕ → Udp → ℕ × Udp
lock_next [] u = (0, record u { held = u.held + 1 })
lock_next (zero ∷ rest) u = (0, record u { locks = rest; held = u.held + 1 })
lock_next (suc e ∷ rest) u = (suc e, record u { locks = rest })

-- `katherine_udp_mutex_lock`
unfoldable pub mutex_lock : Udp → ℕ × Udp
unfolding lock_next
mutex_lock u = lock_next u.locks u

-- `katherine_udp_mutex_unlock`, whose result no caller reads.
unfoldable pub mutex_unlock : Udp → Udp
mutex_unlock u = record u { held = u.held - 1 }
