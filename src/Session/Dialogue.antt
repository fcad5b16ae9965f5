-- ===== src/Session/Dialogue.antt =====
-- A dialogue with a readout that answers: what a session sends and which answers it takes, step by
-- step. `Does m sent answers a` says that over a link that loses nothing `m` succeeds with `a`, sends
-- exactly the datagrams `sent` to the remote, in order, takes exactly the datagrams `answers`, and
-- leaves all else of the session as it was.
use mathlib.Core.List.{append_assoc}
use libkatherine.Base.{ℕ, zero, suc, ◌+◌, ◌≡◌, refl, ◌∙◌, ap, arith, length}
use libkatherine.Base.{true, List, [], ◌∷◌, ◌++◌}
use libkatherine.Udp.{Addr, Udp, Incoming, datagram, ok, recv_exact, recv_exact_loop}
use libkatherine.Udp.{send_exact, send_loop, mutex_lock, mutex_unlock}
use libkatherine.Session.{Query, ◌>>=◌, locked, cmd, wait_ack_crd}
use libkatherine.Session.{then_do}
use libkatherine.Udp.{recv}
use libkatherine.Udp.Receive.{recv-pinned_own}
use libkatherine.Udp.Send.{take_all}

abbrev pub replies : Addr → List (List ℕ) → List Incoming
replies addr [] = []
replies addr (bytes ∷ more) = datagram addr bytes ∷ replies addr more

-- The trace after more datagrams have been sent.
abbrev pub push : Addr → List (List ℕ) → List (Addr × List ℕ) → List (Addr × List ℕ)
push addr [] sent = sent
push addr (bytes ∷ more) sent = push addr more ((addr, bytes) ∷ sent)

-- A pinned session over a link that takes every message, with a mutex that can be had.
pub record IsReady (u : Udp) : Type 0 where
  pub pinned : u.remote_pinned ≡ true
  pub takes : u.outcomes ≡ []
  pub free : u.locks ≡ []

abbrev pub Does : {A : Type 0} → Query A → List (List ℕ) → List (List ℕ) → A → Type 0
Does m sent answers a =
    (u : Udp) (rest : List Incoming)
    → IsReady u
    → u.inbox ≡ replies u.addr_remote answers ++ rest
    → m u ≡ (ok a, record u { inbox = rest; sent = push u.addr_remote sent u.sent })

replies-append :
    (addr : Addr) (xs ys : List (List ℕ))
    → replies addr (xs ++ ys) ≡ replies addr xs ++ replies addr ys
replies-append addr [] ys = refl
replies-append addr (x ∷ xs) ys = ap (λ t. datagram addr x ∷ t) (replies-append addr xs ys)

push-append :
    (addr : Addr) (xs ys : List (List ℕ)) (sent : List (Addr × List ℕ))
    → push addr (xs ++ ys) sent ≡ push addr ys (push addr xs sent)
push-append addr [] ys sent = refl
push-append addr (x ∷ xs) ys sent = push-append addr xs ys ((addr, x) ∷ sent)

module _ {A B : Type 0} where
  pub Does-bind :
      (m : Query A) (f : A → Query B) (s₁ s₂ a₁ a₂ : List (List ℕ)) (a : A) (b : B)
      → Does m s₁ a₁ a
      → Does (f a) s₂ a₂ b
      → Does (m >>= f) (s₁ ++ s₂) (a₁ ++ a₂) b
  Does-bind m f s₁ s₂ a₁ a₂ a b dm df u rest ready e =
      let addr = u.addr_remote in
      let u₁ = record u { inbox = replies addr a₂ ++ rest; sent = push addr s₁ u.sent } in
      let first : m u ≡ (ok a, u₁) =
        dm u (replies addr a₂ ++ rest) ready
          (e ∙ rw replies-append (append_assoc (replies addr a₁) (replies addr a₂) rest)) in
      ap (then_do f) first
      ∙ df u₁ rest (record { pinned = ready.pinned; takes = ready.takes; free = ready.free }) refl
      ∙ rw push-append

pub Does-cmd : (bytes : List ℕ) → Does (cmd bytes) (bytes ∷ []) [] tt
unfolding cmd send_exact send_loop
Does-cmd bytes u rest ready e = ground arith

exact_done :
    (fuel count : ℕ) (got : List ℕ) (u : Udp)
    → length got ≡ count
    → recv_exact_loop fuel count got u ≡ (ok got, u)
unfolding recv_exact_loop
exact_done zero count got u h = ground arith
exact_done (suc fuel) count got u h = ground arith

exact_whole :
    (fuel : ℕ) (answer : List ℕ) (rest : List Incoming) (u : Udp)
    → length answer ≡ 8
    → u.remote_pinned ≡ true
    → u.inbox ≡ datagram u.addr_remote answer ∷ rest
    → recv_exact_loop (suc fuel) 8 [] u ≡ (ok answer, record u { inbox = rest })
unfolding recv_exact_loop recv
exact_whole fuel answer rest u h p e = ground (
  arith,
  recv-pinned_own 8 [] rest u.addr_remote answer u p tt e refl (omega arith),
  take_all 8 answer (omega arith),
  exact_done fuel 8 answer (record u { inbox = rest }) h,
)

pub Does-wait_ack_crd :
    (answer : List ℕ) → length answer ≡ 8 → Does wait_ack_crd [] (answer ∷ []) answer
unfolding wait_ack_crd recv_exact
Does-wait_ack_crd answer h u rest ready e =
    rw (ap length e) (exact_whole (length rest) answer rest u h ready.pinned e)

pub Does-locked :
    {A : Type 0} (m : Query A) (sent answers : List (List ℕ)) (a : A)
    → Does m sent answers a
    → Does (locked m) sent answers a
unfolding locked mutex_lock mutex_unlock
Does-locked m sent answers a d u rest ready e = ground (
  arith,
  d (record u { held = u.held + 1 }) rest
      (record { pinned = ready.pinned; takes = ready.takes; free = ready.free }) e,
)
