-- ===== src/Udp/Open.antt =====
-- Opening and closing sessions: `katherine_udp_init_bound` and `katherine_udp_fini` of
-- c/src/udp_nix.c, and the device of c/src/device.c, which is a pair of them.
-- `open` counts the sockets that the process holds.
use mathlib.Core.Path.{subst}
use libkatherine.Base.{ℕ, ◌+◌, ◌-◌, ◌≡◌, refl, arith, Bool, true, false, ltb, if◌then◌else◌}
use libkatherine.Base.{◌<◌, ◌&&◌, Option, none, some, List, [], einval}
use libkatherine.Udp.{Udp, Incoming, pin_remote}

-- What inet_pton() makes of the local address: none was given, it is no address, or it is one.
pub data LocalAddr : Type 0 where
  wildcard malformed parsed : LocalAddr

-- The results of the system calls, in order: 0 is success, and an errno is never 0.
pub record Calls : Type 0 where
  pub socket : ℕ
  pub reuseaddr : ℕ
  pub local_addr : LocalAddr
  pub bind : ℕ
  pub timeout : ℕ
  pub remote_addr : Option ℕ
  pub mutex : ℕ
  pub inbox : List Incoming

-- The result code, the number of open sockets, and the session if there is one.
abbrev pub Opened : Type 0
Opened = ℕ × ℕ × Option Udp

-- The labels after a failure close the socket; `open` counts it.
abbrev close_with : ℕ → ℕ → Opened
close_with res held = (res, held - 1, none)

abbrev pub fresh : Calls → ℕ → ℕ → Udp
fresh calls host port = record {
  addr_remote = record { host = host; port = port };
  remote_pinned = false;
  inbox = calls.inbox;
  outcomes = [];
  locks = [];
  sent = [];
  held = 0;
}

-- The part from `inet_pton` of the remote address on.
abbrev remote_part : Calls → Option ℕ → ℕ → ℕ → Opened
remote_part calls none port held = close_with einval held
remote_part calls (some host) port held =
    if ltb 0 calls.mutex
    then close_with calls.mutex held
    else (0, held, some (fresh calls host port))

abbrev is_malformed : LocalAddr → Bool
is_malformed LocalAddr.malformed = true
is_malformed _ = false

-- `katherine_udp_init_bound`
unfoldable pub init_bound : Calls → ℕ → ℕ → ℕ → Opened
init_bound calls port timeout_ms held =
    if ltb 0 calls.socket
    then (calls.socket, held, none)
    else if ltb 0 calls.reuseaddr
    then close_with calls.reuseaddr (held + 1)
    else if is_malformed calls.local_addr
    then close_with einval (held + 1)
    else if ltb 0 calls.bind
    then close_with calls.bind (held + 1)
    else if ltb 0 timeout_ms && ltb 0 calls.timeout
    then close_with calls.timeout (held + 1)
    else remote_part calls calls.remote_addr port (held + 1)

-- `katherine_udp_fini`
unfoldable pub fini : ℕ → ℕ
fini held = held - 1

-- `katherine_device_t`
pub record Device : Type 0 where
  pub control_socket : Udp
  pub data_socket : Udp

abbrev pub remote_port : ℕ
remote_port = 1555

abbrev pub timeout : ℕ
timeout = 100

data_part : Udp → Opened → ℕ × ℕ × Option Device
data_part control (res, held, none) = (res, fini held, none)
data_part control (res, held, some u) =
    (0, held, some (record { control_socket = control; data_socket = pin_remote u }))

control_part : Calls → Opened → ℕ × ℕ × Option Device
control_part data_calls (res, held, none) = (res, held, none)
control_part data_calls (res, held, some u) =
    data_part (pin_remote u) (init_bound data_calls remote_port timeout held)

-- `katherine_device_init`
unfoldable pub device_init : Calls → Calls → ℕ → ℕ × ℕ × Option Device
unfolding control_part data_part fini
device_init control_calls data_calls held =
    control_part data_calls (init_bound control_calls remote_port timeout held)

-- `katherine_device_fini`
unfoldable pub device_fini : ℕ → ℕ
unfolding fini
device_fini held = fini (fini held)

-- A session that could not be opened leaves no socket behind, whichever call failed, and reports a
-- result that is not 0; one that was opened holds one socket and tracks its senders.
pub record IsOpened (held : ℕ) (r : Opened) : Type 0 where
  pub failed : r.2 ≡ none → (0 < r.0) × (r.1 ≡ held)
  pub succeeded :
      (u : Udp) → r.2 ≡ some u → (r.0 ≡ 0) × (r.1 ≡ held + 1) × (u.remote_pinned ≡ false)

if-IsOpened :
    {held : ℕ} (b : Bool) (x y : Opened)
    → (b ≡ true → IsOpened held x)
    → IsOpened held y
    → IsOpened held (if b then x else y)
if-IsOpened true x y h k = h refl
if-IsOpened false x y h k = k

close_with-IsOpened : (res held : ℕ) → 0 < res → IsOpened held (close_with res (held + 1))
close_with-IsOpened res held h = record { failed = λ e. omega arith; succeeded = λ u e. cc }

remote_part-IsOpened :
    (calls : Calls) (remote : Option ℕ) (port held : ℕ)
    → IsOpened held (remote_part calls remote port (held + 1))
remote_part-IsOpened calls none port held = close_with-IsOpened einval held (omega arith)
remote_part-IsOpened calls (some host) port held =
    if-IsOpened (ltb 0 calls.mutex) (close_with calls.mutex (held + 1))
      (0, held + 1, some (fresh calls host port))
      (λ e. close_with-IsOpened calls.mutex held (ground arith))
      (record { failed = λ e. cc; succeeded = λ u e. ground arith })

pub init_bound-IsOpened :
    (calls : Calls) (port timeout_ms held : ℕ)
    → IsOpened held (init_bound calls port timeout_ms held)
unfolding init_bound
init_bound-IsOpened calls port timeout_ms held =
    if-IsOpened (ltb 0 calls.socket) _ _
      (λ e. record { failed = λ e'. ground arith; succeeded = λ u e'. cc })
      (if-IsOpened (ltb 0 calls.reuseaddr) _ _
        (λ e. close_with-IsOpened calls.reuseaddr held (ground arith))
        (if-IsOpened (is_malformed calls.local_addr) _ _
          (λ e. close_with-IsOpened einval held (omega arith))
          (if-IsOpened (ltb 0 calls.bind) _ _
            (λ e. close_with-IsOpened calls.bind held (ground arith))
            (if-IsOpened (ltb 0 timeout_ms && ltb 0 calls.timeout) _ _
              (λ e. close_with-IsOpened calls.timeout held (ground arith))
              (remote_part-IsOpened calls calls.remote_addr port held)))))

-- A device that could not be opened leaves no socket behind; one that was opened holds two, both
-- pinned to the readout, and `katherine_device_fini` closes them.
pub record IsDevice (held : ℕ) (r : ℕ × ℕ × Option Device) : Type 0 where
  pub failed : r.2 ≡ none → (0 < r.0) × (r.1 ≡ held)
  pub succeeded :
      (d : Device)
      → r.2 ≡ some d
      → (r.0 ≡ 0)
        × (r.1 ≡ held + 2)
        × (device_fini r.1 ≡ held)
        × (d.control_socket.remote_pinned ≡ true)
        × (d.data_socket.remote_pinned ≡ true)

data_part-IsDevice :
    (control : Udp) (r : Opened) (held : ℕ)
    → control.remote_pinned ≡ true
    → IsOpened (held + 1) r
    → IsDevice held (data_part control r)
unfolding data_part device_fini fini pin_remote
data_part-IsDevice control (res, held', none) held p o = record {
  failed = λ e. ground (arith, o.failed refl);
  succeeded = λ d e. cc;
}
data_part-IsDevice control (res, held', some u) held p o = record {
  failed = λ e. cc;
  succeeded = λ d e. ground (arith, o.succeeded u refl);
}

control_part-IsDevice :
    (data_calls : Calls) (r : Opened) (held : ℕ)
    → IsOpened held r
    → IsDevice held (control_part data_calls r)
unfolding control_part pin_remote
control_part-IsDevice data_calls (res, held', none) held o = record {
  failed = λ e. o.failed refl;
  succeeded = λ d e. cc;
}
control_part-IsDevice data_calls (res, held', some u) held o =
    data_part-IsDevice (pin_remote u) (init_bound data_calls remote_port timeout held') held refl (
      subst (λ h. IsOpened h (init_bound data_calls remote_port timeout held'))
        (o.succeeded u refl).1 (init_bound-IsOpened data_calls remote_port timeout held'))

-- However the system calls end, a device that could not be opened reports a result that is not 0 and
-- leaves as many sockets open as there were; one that was opened holds two sockets more, both pinned
-- to the readout, and `katherine_device_fini` closes them.
pub device_init-IsDevice :
    (control_calls data_calls : Calls) (held : ℕ)
    → IsDevice held (device_init control_calls data_calls held)
unfolding device_init
device_init-IsDevice control_calls data_calls held =
    control_part-IsDevice data_calls (init_bound control_calls remote_port timeout held) held
      (init_bound-IsOpened control_calls remote_port timeout held)
