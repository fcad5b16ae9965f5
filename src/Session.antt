-- ===== src/Session.antt =====
-- What c/src/config.c and c/src/status.c make of a control socket: operations that may fail, that
-- run one after the other until the first failure (`if (res) goto err`), under the mutex of the
-- socket; and the primitives of c/src/command_interface.h that send a command and wait for a response.
pub mod Balance
pub mod Dialogue
pub mod Talk
use libkatherine.Base.{ℕ, zero, suc, List, [], ◌∷◌, eagain, ◌==◌, if◌then◌else◌}
use libkatherine.Udp.{Udp, Result, err, ok, recv_exact, send_exact, mutex_lock, mutex_unlock}

abbrev pub Query : Type 0 → Type 0
Query A = Udp → Result A × Udp

abbrev pub Session : Type 0
Session = Query (Unit {0})

-- What is left to do after an operation; the first failure ends it.
abbrev pub then_do : {A B : Type 0} → (A → Query B) → Result A × Udp → Result B × Udp
then_do f (err e, u) = (err e, u)
then_do f (ok a, u) = f a u

infixl 5 ◌>>=◌ ◌>>◌
abbrev pub ◌>>=◌ : {A B : Type 0} → Query A → (A → Query B) → Query B
◌>>=◌ m f u = then_do f (m u)

abbrev pub ◌>>◌ : {B : Type 0} → Session → Query B → Query B
m >> k = m >>= λ _. k

abbrev pub pure : {A : Type 0} → A → Query A
pure a u = (ok a, u)

abbrev pub fail : {A : Type 0} → ℕ → Query A
fail e u = (err e, u)

-- An int that is 0 on success.
abbrev pub checked : ℕ × Udp → Result (Unit {0}) × Udp
checked (zero, u) = (ok tt, u)
checked (suc e, u) = (err (suc e), u)

unfoldable pub lock : Session
lock u = checked (mutex_lock u)

-- The mutex is released on every path, also after a failure.
unfoldable pub locked : {A : Type 0} → Query A → Query A
unfolding lock
locked body = do lock; λ u. let (r, u') = body u in (r, mutex_unlock u')

-- `katherine_cmd`
unfoldable pub cmd : List ℕ → Session
cmd buffer u = checked (send_exact buffer u)

-- `katherine_cmd_wait_ack_crd`
unfoldable pub wait_ack_crd : Query (List ℕ)
wait_ack_crd = recv_exact 8

-- `katherine_cmd_wait_ack`
unfoldable pub wait_ack : Session
unfolding wait_ack_crd
wait_ack = do _ ← wait_ack_crd; pure tt

-- Up to `attempts` waits while the error is EAGAIN: `do … while (res == EAGAIN && attempts > 0)`.
-- `attempts` is at least 1 where the code uses it.
unfoldable pub wait_ack_retry : ℕ → Session
wait_ack_retry zero u = (err eagain, u)
wait_ack_retry (suc attempts) u =
    let (r, u') = wait_ack u in
    let again = wait_ack_retry attempts u' in
    elim r [
      | ok a ↦ (ok a, u')
      | err e ↦ elim attempts [
        | zero ↦ (err e, u')
        | suc k ↦ if e == eagain then again else (err e, u')
      ]
    ]
