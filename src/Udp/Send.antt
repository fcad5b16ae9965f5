-- ===== src/Udp/Send.antt =====
-- Sending and the mutex.
use mathlib.Core.List.{append_assoc}
use libkatherine.Base.{ℕ, zero, suc, ◌≤◌, ◌≡◌, refl, ap, arith, length, take, drop}
use libkatherine.Base.{List, [], ◌∷◌, ◌++◌}
use libkatherine.Udp.{Addr, Udp, Outcome, refused, accepted, send_loop, send_exact}

-- The bytes of a trace of sends, the latest of which stands first.
abbrev pub sent_bytes : List (Addr × List ℕ) → List ℕ
sent_bytes [] = []
sent_bytes ((to, bytes) ∷ earlier) = sent_bytes earlier ++ bytes

pub take_all : (n : ℕ) (xs : List ℕ) → length xs ≤ n → take n xs ≡ xs
take_all zero [] h = refl
take_all zero (x ∷ xs) h = absurd (omega arith)
take_all (suc n) [] h = refl
take_all (suc n) (x ∷ xs) h = ap (λ t. x ∷ t) (take_all n xs (omega arith))

take-drop : (n : ℕ) (xs : List ℕ) → take n xs ++ drop n xs ≡ xs
take-drop zero xs = refl
take-drop (suc n) [] = refl
take-drop (suc n) (x ∷ xs) = ap (λ t. x ∷ t) (take-drop n xs)

sent_all :
    (os : List Outcome) (rest : List ℕ) (u : Udp)
    → (send_loop os rest u).0 ≡ 0
    → sent_bytes (send_loop os rest u).1.sent ≡ sent_bytes u.sent ++ rest
unfolding send_loop
sent_all [] rest u h = refl
sent_all (refused e ∷ os) rest u h = absurd (omega arith)
sent_all (accepted n ∷ os) rest u h =
    let u' = record u { outcomes = os; sent = (u.addr_remote, take n rest) ∷ u.sent } in
    ground (
      arith,
      sent_all os (drop n rest) u',
      append_assoc (sent_bytes u.sent) (take n rest) (drop n rest),
      take-drop n rest,
      take_all n rest,
    )

-- A send that reports success has sent the bytes of the message, all of them and in order, however
-- many pieces the operating system took them in.
pub send_exact-sent_bytes :
    (bytes : List ℕ) (u : Udp)
    → (send_exact bytes u).0 ≡ 0
    → sent_bytes (send_exact bytes u).1.sent ≡ sent_bytes u.sent ++ bytes
unfolding send_exact
send_exact-sent_bytes bytes u h = sent_all u.outcomes bytes u h
