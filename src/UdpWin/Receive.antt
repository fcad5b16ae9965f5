-- ===== src/UdpWin/Receive.antt =====
-- Receiving on Windows: what c/src/udp_win.c does as c/src/udp_nix.c does it, and what it does of a
-- datagram that is too long for the buffer.
use libkatherine.Base.{ℕ, zero, suc, ◌-◌, ◌≤◌, ◌<◌, ◌≡◌, refl, ◌∙◌, arith, length}
use libkatherine.Base.{true, false, List, [], ◌∷◌, ◌++◌, ◌==◌, ==_iff, map}
use libkatherine.Udp.{Addr, Udp, Incoming, failed, datagram, Received, err, ok}
use libkatherine.Udp.{from_pinned_remote, pin_max_discards}
use libkatherine.Udp.Send.{take_all}
use libkatherine.Udp.Receive.{AllForeign}
use libkatherine.Udp as Nix
use libkatherine.UdpWin.{recv_error_code, wsaemsgsize, recvfrom, recv_pinned, recv_datagram, recv}

-- An arrival as the socket of udp_nix.c yields it: the errors of Winsock as the portable ones.
unfoldable pub portable : Incoming → Incoming
portable (failed e) = failed (recv_error_code (suc e) - 1)
portable (datagram from bytes) = datagram from bytes

-- The session over such a socket.
unfoldable pub on_nix : Udp → Udp
on_nix u = record u { inbox = map portable u.inbox }

-- No datagram is longer than the buffer.
abbrev pub AllWithin : ℕ → List Incoming → Type 0
AllWithin count [] = Unit {0}
AllWithin count (failed e ∷ rest) = AllWithin count rest
AllWithin count (datagram from bytes ∷ rest) = (length bytes ≤ count) × AllWithin count rest

-- The same result, and the same session but for the socket.
record Agrees (r : Received × Udp) (n : Received × Udp) : Type 0 where
  result : r.0 ≡ n.0
  session : on_nix r.1 ≡ n.1

code_lem : (e : ℕ) → suc (recv_error_code (suc e) - 1) ≡ recv_error_code (suc e)
unfolding recv_error_code
code_lem e = ground arith

recv_pinned-Agrees :
    (left count : ℕ) (inbox : List Incoming) (u : Udp)
    → u.inbox ≡ inbox
    → AllWithin count inbox
    → Agrees (recv_pinned left count u) (Nix.recv_pinned left count (on_nix u))
unfolding recv_pinned Nix.recv_pinned recvfrom Nix.recvfrom on_nix portable recv_error_code
    from_pinned_remote
recv_pinned-Agrees zero count inbox u e w = ground arith
recv_pinned-Agrees (suc left) count [] u e w = ground arith
recv_pinned-Agrees (suc left) count (failed x ∷ rest) u e w = ground (arith, code_lem x)
recv_pinned-Agrees (suc left) count (datagram from bytes ∷ rest) u e w = ground (
  arith,
  take_all count bytes w.0,
  recv_pinned-Agrees left count rest (record u { inbox = rest }) refl w.1,
)

recv_datagram-Agrees :
    (count : ℕ) (inbox : List Incoming) (u : Udp)
    → u.inbox ≡ inbox
    → AllWithin count inbox
    → Agrees (recv_datagram count u) (Nix.recv_datagram count (on_nix u))
unfolding recv_datagram Nix.recv_datagram recvfrom Nix.recvfrom on_nix portable recv_error_code
recv_datagram-Agrees count [] u e w =
    ground (arith, recv_pinned-Agrees pin_max_discards count [] u e w)
recv_datagram-Agrees count (failed x ∷ rest) u e w =
    ground (arith, code_lem x, recv_pinned-Agrees pin_max_discards count (failed x ∷ rest) u e w)
recv_datagram-Agrees count (datagram from bytes ∷ rest) u e w = ground (
  arith,
  take_all count bytes w.0,
  recv_pinned-Agrees pin_max_discards count (datagram from bytes ∷ rest) u e w,
)

-- As long as no datagram in the socket is longer than the buffer, a receive on Windows is that of
-- udp_nix.c, on a session pinned or not, over a socket that yields the portable codes of the errors:
-- the result is the same, and so is the session after it.
pub recv-on_nix :
    (count : ℕ) (u : Udp)
    → AllWithin count u.inbox
    → ((recv count u).0 ≡ (Nix.recv count (on_nix u)).0)
      × (on_nix (recv count u).1 ≡ (Nix.recv count (on_nix u)).1)
unfolding recv Nix.recv
recv-on_nix count u w = let a = recv_datagram-Agrees count u.inbox u refl w in (a.result, a.session)

pinned_own :
    (left count : ℕ) (strays rest : List Incoming) (from : Addr) (bytes : List ℕ) (u : Udp)
    → AllForeign u.addr_remote.host strays
    → u.inbox ≡ strays ++ (datagram from bytes ∷ rest)
    → (from.host == u.addr_remote.host) ≡ true
    → length bytes ≤ count
    → length strays < left
    → recv_pinned left count u ≡ (ok bytes, record u { inbox = rest })
unfolding recv_pinned recvfrom from_pinned_remote
pinned_own zero count strays rest from bytes u a e own fits h = absurd (omega arith)
pinned_own (suc left) count [] rest from bytes u a e own fits h = ground arith
pinned_own (suc left) count (failed x ∷ strays) rest from bytes u a e own fits h = elim a [ ]
pinned_own (suc left) count (datagram f b ∷ strays) rest from bytes u a e own fits h = ground (
  arith,
  pinned_own left count strays rest from bytes
      (record u { inbox = strays ++ (datagram from bytes ∷ rest) }) a.1 refl own fits (omega arith),
)

recv_datagram-pinned :
    (count : ℕ) (u : Udp)
    → u.remote_pinned ≡ true
    → recv_datagram count u ≡ recv_pinned pin_max_discards count u
unfolding recv_datagram
recv_datagram-pinned count u p = ground arith

-- A receive on a pinned session on Windows skips the datagrams of other hosts, fewer than 32 of them,
-- those that are longer than the buffer included, and returns the first one of its readout, where
-- that fits the buffer; the session keeps its remote address.
pub recv-pinned_oversized :
    (count : ℕ) (strays rest : List Incoming) (from : Addr) (bytes : List ℕ) (u : Udp)
    → u.remote_pinned ≡ true
    → AllForeign u.addr_remote.host strays
    → u.inbox ≡ strays ++ (datagram from bytes ∷ rest)
    → from.host ≡ u.addr_remote.host
    → length bytes ≤ count
    → length strays < 32
    → recv count u ≡ (ok bytes, record u { inbox = rest })
unfolding recv
recv-pinned_oversized count strays rest from bytes u p a e own fits h =
    recv_datagram-pinned count u p
    ∙ pinned_own pin_max_discards count strays rest from bytes u a e ((==_iff _ _).1 own) fits h

-- On an unpinned session a datagram that is longer than the buffer is lost, with WSAEMSGSIZE for the
-- result, and the session turns to its sender all the same.
pub recv_too_long :
    (count : ℕ) (from : Addr) (bytes : List ℕ) (rest : List Incoming) (u : Udp)
    → u.remote_pinned ≡ false
    → u.inbox ≡ datagram from bytes ∷ rest
    → count < length bytes
    → recv count u ≡ (err wsaemsgsize, record u { inbox = rest; addr_remote = from })
unfolding recv recv_datagram recvfrom recv_error_code
recv_too_long count from bytes rest u p e h = ground arith
