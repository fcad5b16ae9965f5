-- ===== src/Session/Talk.antt =====
-- Exchanges with a readout that acknowledges every command: `Talks m sent n` says that whatever the
-- eight bytes of the acknowledgements are, `m` succeeds, sends exactly the datagrams `sent` in this
-- order, and takes exactly `n` acknowledgements.
use mathlib.Core.Path.{transport}
use libkatherine.Base.{ℕ, zero, suc, ◌+◌, ◌≡◌, ap, ap₂, sym, ◌∙◌, List, [], ◌∷◌, ◌++◌, length}
use libkatherine.Base.{arith}
use libkatherine.Session.{Session, ◌>>◌, pure, locked, cmd, wait_ack, wait_ack_crd}
use libkatherine.Session.{wait_ack_retry}
use libkatherine.Udp.{ok}
use libkatherine.Session.Dialogue.{Does, Does-bind, Does-cmd, Does-wait_ack_crd, Does-locked}

-- The next `n` acknowledgements, from `i` on.
abbrev pub listed : ℕ → ℕ → (ℕ → List ℕ) → List (List ℕ)
listed i zero acks = []
listed i (suc n) acks = acks i ∷ listed (i + 1) n acks

abbrev pub Talks : Session → List (List ℕ) → ℕ → Type 0
Talks m sent n =
    (i : ℕ) (acks : ℕ → List ℕ) → ((k : ℕ) → length (acks k) ≡ 8) → Does m sent (listed i n acks) tt

listed-add :
    (i m n : ℕ) (acks : ℕ → List ℕ)
    → listed i (m + n) acks ≡ listed i m acks ++ listed (i + m) n acks
listed-add i zero n acks =
    let e : 0 + n ≡ n = omega arith in
    let f : i ≡ i + 0 = omega arith in ap₂ (λ a b. listed a b acks) f e
listed-add i (suc m) n acks =
    let e : suc m + n ≡ suc (m + n) = omega arith in
    let f : i + 1 + m ≡ i + suc m = omega arith in
    ap (λ k. listed i k acks) e
    ∙ ap (λ t. acks i ∷ t)
        (listed-add (i + 1) m n acks ∙ ap (λ k. listed (i + 1) m acks ++ listed k n acks) f)

Does-pure : Does (pure tt) [] [] tt
Does-pure u rest ready e = ap (λ inbox. (ok tt, record u { inbox = inbox })) e

pub Talks-pure : Talks (pure tt) [] 0
Talks-pure i acks h = Does-pure

pub Talks-count :
    (m : Session) (sent : List (List ℕ)) (j k : ℕ) → j ≡ k → Talks m sent j → Talks m sent k
Talks-count m sent j k e t = transport (λ i. Talks m sent (e i)) t

pub Talks-bind :
    (a b : Session) (s₁ s₂ : List (List ℕ)) (m n : ℕ)
    → Talks a s₁ m
    → Talks b s₂ n
    → Talks (a >> b) (s₁ ++ s₂) (m + n)
Talks-bind a b s₁ s₂ m n ta tb i acks h =
    transport (λ k. Does (a >> b) (s₁ ++ s₂) (sym (listed-add i m n acks) k) tt)
      (Does-bind a (λ _. b) s₁ s₂ (listed i m acks) (listed (i + m) n acks) tt tt (ta i acks h)
        (tb (i + m) acks h))

pub Talks-cmd : (bytes : List ℕ) → Talks (cmd bytes) (bytes ∷ []) 0
Talks-cmd bytes i acks h = Does-cmd bytes

pub Talks-wait_ack : Talks wait_ack [] 1
unfolding wait_ack
Talks-wait_ack i acks h =
    Does-bind wait_ack_crd (λ _. pure tt) [] [] (acks i ∷ []) [] (acks i) tt
      (Does-wait_ack_crd (acks i) (h i)) Does-pure

pub Talks-locked :
    (m : Session) (sent : List (List ℕ)) (n : ℕ) → Talks m sent n → Talks (locked m) sent n
Talks-locked m sent n t i acks h = Does-locked m sent (listed i n acks) tt (t i acks h)

pub Talks-wait_ack_retry : (attempts : ℕ) → Talks (wait_ack_retry (suc attempts)) [] 1
unfolding wait_ack_retry
Talks-wait_ack_retry zero i acks h u rest ready e =
    ground (arith, Talks-wait_ack i acks h u rest ready e)
Talks-wait_ack_retry (suc n) i acks h u rest ready e =
    ground (arith, Talks-wait_ack i acks h u rest ready e)
