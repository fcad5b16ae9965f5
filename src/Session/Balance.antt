-- ===== src/Session/Balance.antt =====
-- The mutex of the control socket: whatever the link does, and however an operation ends, it releases
-- the lock that it took, keeps the remote it is pinned to, and takes nothing back of what was sent.
use libkatherine.Base.{ℕ, zero, suc, ◌+◌, ◌-◌, ◌≡◌, refl, ◌∙◌, ap, arith, true, List, [], ◌∷◌}
use libkatherine.Base.{length, ◌++◌, take, drop}
use libkatherine.Udp.{
  Udp, Outcome, refused, accepted, Result, err, ok, send_exact, send_loop, recv_exact,
  recv_exact_loop, recv_datagram, Received, mutex_lock, mutex_unlock, lock_next,
}
use libkatherine.Session.{
  Query, then_do, checked, pure, ◌>>=◌, locked, lock, cmd, wait_ack_crd, wait_ack, wait_ack_retry,
}
use libkatherine.Udp.Receive.{recv_datagram-KeepsSession}

pub record Released (u u' : Udp) : Type 0 where
  pub remote : u'.addr_remote ≡ u.addr_remote
  pub pinned : u'.remote_pinned ≡ u.remote_pinned
  pub held : u'.held ≡ u.held

abbrev pub Keeps : {A : Type 0} → Query A → Type 0
Keeps m = (u : Udp) → u.remote_pinned ≡ true → Released u (m u).1

pub released : {u : Udp} → Released u u
released = record { remote = refl; pinned = refl; held = refl }

pub Released-trans : {u v w : Udp} → Released u v → Released v w → Released u w
Released-trans a b = record {
  remote = b.remote ∙ a.remote;
  pinned = b.pinned ∙ a.pinned;
  held = b.held ∙ a.held;
}

then_do-Released :
    {A B : Type 0} (f : A → Query B) (u : Udp) (r : Result A) (u' : Udp)
    → ((a : A) → Keeps (f a))
    → u.remote_pinned ≡ true
    → Released u u'
    → Released u (then_do f (r, u')).1
then_do-Released f u (err e) u' k p h = h
then_do-Released f u (ok a) u' k p h = Released-trans h (k a u' (h.pinned ∙ p))

pub Keeps-bind :
    {A B : Type 0} (m : Query A) (f : A → Query B)
    → Keeps m
    → ((a : A) → Keeps (f a))
    → Keeps (m >>= f)
Keeps-bind m f km kf u p = then_do-Released f u (m u).0 (m u).1 kf p (km u p)

checked-Released : (u : Udp) (r : ℕ × Udp) → Released u r.1 → Released u (checked r).1
checked-Released u (zero, u') h = h
checked-Released u (suc e, u') h = h

send_loop-Released :
    (os : List Outcome) (rest : List ℕ) (u : Udp) → Released u (send_loop os rest u).1
unfolding send_loop
send_loop-Released [] rest u = record { remote = refl; pinned = refl; held = refl }
send_loop-Released (refused e ∷ os) rest u = record { remote = refl; pinned = refl; held = refl }
send_loop-Released (accepted n ∷ os) rest u = ground (
  arith,
  send_loop-Released os (drop n rest)
      (record u { outcomes = os; sent = (u.addr_remote, take n rest) ∷ u.sent }),
)

pub Keeps-cmd : (bytes : List ℕ) → Keeps (cmd bytes)
unfolding cmd send_exact
Keeps-cmd bytes u p =
    checked-Released u (send_exact bytes u) (send_loop-Released u.outcomes bytes u)

recv_datagram-Released :
    (count : ℕ) (u : Udp) → u.remote_pinned ≡ true → Released u (recv_datagram count u).1
recv_datagram-Released count u p =
    let k = recv_datagram-KeepsSession count u p in
    record { remote = k.remote; pinned = k.pinned; held = k.held }

recv_round-Released :
    (fuel count : ℕ) (got : List ℕ) (u u' : Udp) (r : Received)
    → recv_datagram (count - length got) u ≡ (r, u')
    → Released u u'
    → ((bytes : List ℕ) → Released u (recv_exact_loop fuel count (got ++ bytes) u').1)
    → Released u (recv_exact_loop (suc fuel) count got u).1
unfolding recv_exact_loop
recv_round-Released fuel count got u u' (err e) eq first later =
    ground (arith, first, eq, released {u = u})
recv_round-Released fuel count got u u' (ok bytes) eq first later =
    ground (arith, later bytes, eq, released {u = u})

recv_exact_loop-Released :
    (fuel count : ℕ) (got : List ℕ) (u : Udp)
    → u.remote_pinned ≡ true
    → Released u (recv_exact_loop fuel count got u).1
unfolding recv_exact_loop
recv_exact_loop-Released zero count got u p = ground (arith, released {u = u})
recv_exact_loop-Released (suc fuel) count got u p =
    let first = recv_datagram-Released (count - length got) u p in
    let r = recv_datagram (count - length got) u in
    recv_round-Released fuel count got u r.1 r.0 refl first (λ bytes.
      Released-trans first
        (recv_exact_loop-Released fuel count (got ++ bytes) r.1 (first.pinned ∙ p)))

pub Keeps-wait_ack_crd : Keeps wait_ack_crd
unfolding wait_ack_crd recv_exact
Keeps-wait_ack_crd u p = recv_exact_loop-Released (length u.inbox) 8 [] u p

pub Keeps-wait_ack : Keeps wait_ack
unfolding wait_ack
Keeps-wait_ack = Keeps-bind wait_ack_crd (λ _. pure tt) Keeps-wait_ack_crd (λ _ _ _. released)

pub Keeps-wait_ack_retry : (attempts : ℕ) → Keeps (wait_ack_retry attempts)
unfolding wait_ack_retry
Keeps-wait_ack_retry zero u p = released
Keeps-wait_ack_retry (suc zero) u p = ground (arith, Keeps-wait_ack u p)
Keeps-wait_ack_retry (suc (suc n)) u p =
    let first = Keeps-wait_ack u p in
    ground (
      arith,
      first,
      Released-trans first (Keeps-wait_ack_retry (suc n) (wait_ack u).1 (first.pinned ∙ p)),
    )

unlock_after :
    {A : Type 0} (m : Query A) (ls : List ℕ) (u : Udp)
    → Keeps m
    → u.remote_pinned ≡ true
    → Released u (mutex_unlock (m (record u { locks = ls; held = u.held + 1 })).1)
unfolding mutex_unlock
unlock_after m ls u k p =
    let r = k (record u { locks = ls; held = u.held + 1 }) p in
    record { remote = r.remote; pinned = r.pinned; held = ap (λ h. h - 1) r.held ∙ omega arith }

locked_with :
    {A : Type 0} (m : Query A) (ls : List ℕ) (u : Udp)
    → Keeps m
    → u.remote_pinned ≡ true
    → Released u (then_do (λ _ v. ((m v).0, mutex_unlock (m v).1)) (checked (lock_next ls u))).1
unfolding lock_next
locked_with m [] u k p = unlock_after m u.locks u k p
locked_with m (zero ∷ rest) u k p = unlock_after m rest u k p
locked_with m (suc e ∷ rest) u k p = record { remote = refl; pinned = refl; held = refl }

-- A session under the mutex, whatever becomes of it, is balanced when its body is.
pub Keeps-locked : {A : Type 0} (m : Query A) → Keeps m → Keeps (locked m)
unfolding locked lock mutex_lock
Keeps-locked m k u p = locked_with m u.locks u k p
