-- ===== src/Udp/Receive.antt =====
-- A pinned session hears its readout only.
use libkatherine.Base.{ℕ, zero, suc, ◌-◌, ◌≤◌, ◌<◌, ◌≡◌, refl, ◌∙◌, arith, eagain, length}
use libkatherine.Base.{true, false, List, [], ◌∷◌, ◌++◌, take}
use libkatherine.Base.{length-append, length-take, ◌==◌}
use libkatherine.Udp.{Addr, Udp, Incoming, failed, datagram, Received, err, ok, recvfrom}
use libkatherine.Udp.{from_pinned_remote, recv_pinned, recv_datagram, recv_exact_loop, recv_exact}
use libkatherine.Udp.{pin_max_discards, recv}
use libkatherine.Base.{==_iff}

-- Datagrams of hosts other than the pinned one.
abbrev pub AllForeign : ℕ → List Incoming → Type 0
AllForeign host [] = Unit {0}
AllForeign host (failed e ∷ rest) = ⊥
AllForeign host (datagram from bytes ∷ rest) = ((from.host == host) ≡ false) × AllForeign host rest

-- The stray datagrams in front of one of the pinned host are discarded, and it is received.
pinned_own :
    (left count : ℕ) (strays rest : List Incoming) (from : Addr) (bytes : List ℕ) (u : Udp)
    → AllForeign u.addr_remote.host strays
    → u.inbox ≡ strays ++ (datagram from bytes ∷ rest)
    → (from.host == u.addr_remote.host) ≡ true
    → length strays < left
    → recv_pinned left count u ≡ (ok (take count bytes), record u { inbox = rest })
unfolding recv_pinned recvfrom from_pinned_remote
pinned_own zero count strays rest from bytes u a e own h = absurd (omega arith)
pinned_own (suc left) count [] rest from bytes u a e own h = ground arith
pinned_own (suc left) count (failed x ∷ strays) rest from bytes u a e own h = elim a [ ]
pinned_own (suc left) count (datagram f b ∷ strays) rest from bytes u a e own h = ground (
  arith,
  pinned_own left count strays rest from bytes
      (record u { inbox = strays ++ (datagram from bytes ∷ rest) }) a.1 refl own (omega arith),
)

-- As many stray datagrams as the budget allows end the call with EAGAIN.
pinned_strays :
    (left count : ℕ) (strays rest : List Incoming) (u : Udp)
    → AllForeign u.addr_remote.host strays
    → u.inbox ≡ strays ++ rest
    → length strays ≡ left
    → recv_pinned left count u ≡ (err eagain, record u { inbox = rest })
unfolding recv_pinned recvfrom from_pinned_remote
pinned_strays zero count [] rest u a e h = ground arith
pinned_strays zero count (x ∷ strays) rest u a e h = absurd (omega arith)
pinned_strays (suc left) count [] rest u a e h = absurd (omega arith)
pinned_strays (suc left) count (failed x ∷ strays) rest u a e h = elim a [ ]
pinned_strays (suc left) count (datagram f b ∷ strays) rest u a e h = ground (
  arith,
  pinned_strays left count strays rest (record u { inbox = strays ++ rest }) a.1 refl (omega arith),
)

pub recv_datagram-pinned :
    (count : ℕ) (u : Udp)
    → u.remote_pinned ≡ true
    → recv_datagram count u ≡ recv_pinned pin_max_discards count u
unfolding recv_datagram
recv_datagram-pinned count u p = ground arith

-- A receive on a pinned session skips the datagrams of other hosts, fewer than 32 of them, and
-- returns the first one of its readout, cut to the buffer; the session keeps its remote address.
pub recv-pinned_own :
    (count : ℕ) (strays rest : List Incoming) (from : Addr) (bytes : List ℕ) (u : Udp)
    → u.remote_pinned ≡ true
    → AllForeign u.addr_remote.host strays
    → u.inbox ≡ strays ++ (datagram from bytes ∷ rest)
    → from.host ≡ u.addr_remote.host
    → length strays < 32
    → recv count u ≡ (ok (take count bytes), record u { inbox = rest })
unfolding recv
recv-pinned_own count strays rest from bytes u p a e own h =
    recv_datagram-pinned count u p
    ∙ (pinned_own pin_max_discards count strays rest from bytes u a e ((==_iff _ _).1 own) h)

-- 32 datagrams of other hosts in a row end a receive on a pinned session with EAGAIN; what follows
-- them stays in the socket.
pub recv-pinned_strays :
    (count : ℕ) (strays rest : List Incoming) (u : Udp)
    → u.remote_pinned ≡ true
    → AllForeign u.addr_remote.host strays
    → u.inbox ≡ strays ++ rest
    → length strays ≡ 32
    → recv count u ≡ (err eagain, record u { inbox = rest })
unfolding recv
recv-pinned_strays count strays rest u p a e h =
    recv_datagram-pinned count u p ∙ (pinned_strays pin_max_discards count strays rest u a e h)

-- What a receive leaves alone: on a pinned session all but the socket itself.
pub record KeepsSession (u u' : Udp) : Type 0 where
  pub remote : u'.addr_remote ≡ u.addr_remote
  pub pinned : u'.remote_pinned ≡ u.remote_pinned
  pub outcomes : u'.outcomes ≡ u.outcomes
  pub locks : u'.locks ≡ u.locks
  pub sent : u'.sent ≡ u.sent
  pub held : u'.held ≡ u.held

recv_pinned-KeepsSession :
    (left count : ℕ) (inbox : List Incoming) (u : Udp)
    → u.inbox ≡ inbox
    → KeepsSession u (recv_pinned left count u).1
unfolding recv_pinned recvfrom from_pinned_remote
recv_pinned-KeepsSession zero count inbox u e = ground arith
recv_pinned-KeepsSession (suc left) count [] u e = ground arith
recv_pinned-KeepsSession (suc left) count (failed x ∷ rest) u e = ground arith
recv_pinned-KeepsSession (suc left) count (datagram f b ∷ rest) u e =
    ground (arith, recv_pinned-KeepsSession left count rest (record u { inbox = rest }) refl)

pub recv_datagram-KeepsSession :
    (count : ℕ) (u : Udp) → u.remote_pinned ≡ true → KeepsSession u (recv_datagram count u).1
recv_datagram-KeepsSession count u p =
    rw (recv_datagram-pinned count u p)
      (recv_pinned-KeepsSession pin_max_discards count u.inbox u refl)

-- Whatever arrives, a receive on a pinned session changes nothing of the session but the socket: the
-- remote address is the one that it was pinned to.
pub recv-KeepsSession :
    (count : ℕ) (u : Udp) → u.remote_pinned ≡ true → KeepsSession u (recv count u).1
unfolding recv
recv-KeepsSession count u p =
    rw (recv_datagram-pinned count u p)
      (recv_pinned-KeepsSession pin_max_discards count u.inbox u refl)

-- The bytes of one receive fit the buffer.
abbrev pub payload : Received → List ℕ
payload (err e) = []
payload (ok bytes) = bytes

recv_pinned-fits :
    (left count : ℕ) (inbox : List Incoming) (u : Udp)
    → u.inbox ≡ inbox
    → length (payload (recv_pinned left count u).0) ≤ count
unfolding recv_pinned recvfrom from_pinned_remote
recv_pinned-fits zero count inbox u e = omega arith
recv_pinned-fits (suc left) count [] u e = ground arith
recv_pinned-fits (suc left) count (failed x ∷ rest) u e = ground arith
recv_pinned-fits (suc left) count (datagram f b ∷ rest) u e =
    ground (
      arith,
      length-take count b,
      recv_pinned-fits left count rest (record u { inbox = rest }) refl,
    )

recv_datagram-fits :
    (count : ℕ) (inbox : List Incoming) (u : Udp)
    → u.inbox ≡ inbox
    → length (payload (recv_datagram count u).0) ≤ count
unfolding recv_datagram recvfrom
recv_datagram-fits count [] u e = ground (arith, recv_pinned-fits pin_max_discards count [] u e)
recv_datagram-fits count (failed x ∷ rest) u e =
    ground (arith, recv_pinned-fits pin_max_discards count (failed x ∷ rest) u e)
recv_datagram-fits count (datagram f b ∷ rest) u e =
    ground (
      arith,
      length-take count b,
      recv_pinned-fits pin_max_discards count (datagram f b ∷ rest) u e,
    )

exact_length :
    (fuel count : ℕ) (got : List ℕ) (u : Udp) {bytes : List ℕ}
    → length got ≤ count
    → (recv_exact_loop fuel count got u).0 ≡ ok bytes
    → length bytes ≡ count
unfolding recv_exact_loop
exact_length zero count got u h e = ground arith
exact_length (suc fuel) count got u {bytes} h e =
    let (r, u') = recv_datagram (count - length got) u in
    ground (
      arith,
      recv_datagram-fits (count - length got) u.inbox u refl,
      length-append got (payload r),
      exact_length fuel count (got ++ payload r) u' {bytes = bytes},
    )

-- A message that is received at all has exactly the length asked for, also when it came in pieces.
pub recv_exact-length :
    (count : ℕ) (u : Udp) {bytes : List ℕ}
    → (recv_exact count u).0 ≡ ok bytes
    → length bytes ≡ count
unfolding recv_exact
recv_exact-length count u e = exact_length (length u.inbox) count [] u (omega arith) e
