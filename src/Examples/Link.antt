-- ===== src/Examples/Link.antt =====
-- The theorems on c/src/udp_nix.c, c/src/udp_win.c and c/src/device.c at concrete inputs.
use libkatherine.Base.{ℕ, ◌≡◌, refl, arith, true, List, [], ◌∷◌, ◌++◌, take}
use libkatherine.Base.{zero, suc, replicate, some}
use libkatherine.Udp.{Addr, Udp, Incoming, datagram, accepted, ok, recv}
use libkatherine.Udp.{send_exact}
use libkatherine.Udp.{send_loop}
use libkatherine.Udp.Receive.{AllForeign, recv-pinned_own}
use libkatherine.Udp.Send.{sent_bytes, send_exact-sent_bytes}
use libkatherine.Udp.Open.{Calls, LocalAddr, device_init}
use libkatherine.Base.{none}
use libkatherine.Udp.{failed}
use libkatherine.Udp.Open.{IsDevice, device_init-IsDevice}
use libkatherine.UdpWin.{recv as recv_win}
use libkatherine.UdpWin.Receive.{on_nix, recv-on_nix, recv-pinned_oversized}
use libkatherine.UdpWin.Open.{Calls as WinCalls, Held}

abbrev readout : Addr
readout = record { host = 7; port = 1555 }

abbrev stranger : Addr
stranger = record { host = 9; port = 53 }

abbrev answer : List ℕ
answer = 1 ∷ 2 ∷ 3 ∷ 4 ∷ 5 ∷ 6 ∷ 7 ∷ 8 ∷ []

abbrev session : List Incoming → Udp
session inbox = record {
  addr_remote = readout;
  remote_pinned = true;
  inbox = inbox;
  outcomes = [];
  locks = [];
  sent = [];
  held = 0;
}

abbrev strays : List Incoming
strays = datagram stranger (1 ∷ []) ∷ datagram stranger [] ∷ []

recv-pinned_own_example :
    recv 4 (session (strays ++ (datagram readout answer ∷ []))) ≡ (ok (take 4 answer), session [])
recv-pinned_own_example =
    recv-pinned_own 4 strays [] readout answer (session (strays ++ (datagram readout answer ∷ [])))
      refl (refl, (refl, tt)) refl refl (omega arith)

abbrev many : List Incoming
many = replicate 32 (datagram stranger (1 ∷ []))

strangers : (n : ℕ) → AllForeign 7 (replicate n (datagram stranger (1 ∷ [])))
strangers zero = tt
strangers (suc n) = (refl, strangers n)

abbrev pieces : Udp
pieces = session (datagram readout (1 ∷ 2 ∷ 3 ∷ []) ∷ datagram readout (4 ∷ 5 ∷ []) ∷ [])

abbrev whole : List ℕ
whole = 1 ∷ 2 ∷ 3 ∷ 4 ∷ 5 ∷ []

abbrev slow : Udp
slow = record (session []) { outcomes = accepted 3 ∷ accepted 2 ∷ [] }

send_exact-sent_bytes_example : sent_bytes (send_exact answer slow).1.sent ≡ sent_bytes [] ++ answer
unfolding send_exact send_loop
send_exact-sent_bytes_example = send_exact-sent_bytes answer slow refl

abbrev working : Calls
working = record {
  socket = 0;
  reuseaddr = 0;
  local_addr = LocalAddr.wildcard;
  bind = 0;
  timeout = 0;
  remote_addr = some 7;
  mutex = 0;
  inbox = [];
}

abbrev failing : Calls
failing = record working { bind = 98 }

device_init-IsDevice_example : IsDevice 3 (device_init working failing 3)
device_init-IsDevice_example = device_init-IsDevice working failing 3

recv-on_nix_example :
    ((recv_win 8 (session (failed 10003 ∷ []))).0
      ≡ (recv 8 (on_nix (session (failed 10003 ∷ [])))).0)
    × (on_nix (recv_win 8 (session (failed 10003 ∷ []))).1
        ≡ (recv 8 (on_nix (session (failed 10003 ∷ [])))).1)
recv-on_nix_example = recv-on_nix 8 (session (failed 10003 ∷ [])) tt

recv-pinned_oversized_example :
    recv_win 8
      (session (datagram stranger (replicate 9 1) ∷ datagram readout answer ∷ failed 3 ∷ []))
    ≡ (ok answer, session (failed 3 ∷ []))
recv-pinned_oversized_example =
    recv-pinned_oversized 8 (datagram stranger (replicate 9 1) ∷ []) (failed 3 ∷ []) readout answer
      (session (datagram stranger (replicate 9 1) ∷ datagram readout answer ∷ failed 3 ∷ [])) refl
      (refl, tt) refl refl (omega arith) (omega arith)

abbrev idle : Held
idle = record { startups = 1; sockets = 2; mutexes = 2 }

abbrev unnamed : WinCalls
unnamed = record {
  startup = 0;
  socket = 0;
  local_addr = true;
  bind = 0;
  timeout = 0;
  remote_addr = none;
  last_error = 0;
  mutex = 0;
  inbox = [];
}
