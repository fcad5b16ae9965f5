-- ===== src/Emu/Ring.antt =====
-- A ring in an array: `count` elements from `head` on, going round at the size of the array.
use libkatherine.Base.{ℕ, zero, suc, ◌+◌, ◌%◌, ◌<◌, ◌≡◌, ◌≢◌, refl, sym, ap, ap₂, ◌∙◌, arith}
use libkatherine.Base.{List, [], ◌∷◌, ◌++◌, length}
use libkatherine.Emu.{store}

module _ {ℓ} {A : Type ℓ} where
  abbrev pub ring : ℕ → (ℕ → A) → ℕ → ℕ → List A
  ring cap array head zero = []
  ring cap array head (suc count) = array (head % cap) ∷ ring cap array (head + 1) count

  pub length-ring :
      (cap : ℕ) (array : ℕ → A) (head count : ℕ) → length (ring cap array head count) ≡ count
  length-ring cap array head zero = refl
  length-ring cap array head (suc count) = ap suc (length-ring cap array (head + 1) count)

-- What going round a ring of this size needs of `%`: steps from one place lead to one place, and
-- fewer steps than the size never meet.
pub record GoesRound (cap : ℕ) : Type 0 where
  pub next : (h k : ℕ) → h % cap ≡ k % cap → (h + 1) % cap ≡ (k + 1) % cap
  pub apart : (h i n : ℕ) → i < n → n < cap → (h + i) % cap ≢ (h + n) % cap
  pub small : (h : ℕ) → h < cap → h % cap ≡ h
  pub twice : (h : ℕ) → h % cap % cap ≡ h % cap

module _ {ℓ} {A : Type ℓ} {cap : ℕ} (goes : GoesRound cap) where
  ring-mod :
      (array : ℕ → A) (h k count : ℕ)
      → h % cap ≡ k % cap
      → ring cap array h count ≡ ring cap array k count
  ring-mod array h k zero e = refl
  ring-mod array h k (suc count) e =
      ap₂ ◌∷◌ (ap array e) (ring-mod array (h + 1) (k + 1) count (goes.next h k e))

  pub ring_wrapped :
      (array : ℕ → A) (h count : ℕ) → ring cap array (h % cap) count ≡ ring cap array h count
  ring_wrapped array h count = ring-mod array (h % cap) h count (goes.twice h)

  store_self :
      (array : ℕ → A) (slot place : ℕ) (v : A) → place ≡ slot → store array slot v place ≡ v
  store_self array slot place v e = ground (arith, e)

  store_ne :
      (array : ℕ → A) (slot place : ℕ) (v : A)
      → place ≢ slot
      → store array slot v place ≡ array place
  store_ne array slot place v ne = ground (arith, ne)

  -- A store just behind a ring that is not full extends it.
  pub ring-store :
      (array : ℕ → A) (v : A) (count head slot : ℕ)
      → count < cap
      → slot ≡ (head + count) % cap
      → ring cap (store array slot v) head (suc count) ≡ ring cap array head count ++ (v ∷ [])
  ring-store array v zero head slot fits e =
      let z : head ≡ head + 0 = omega arith in
      ap (λ x. x ∷ []) (store_self array slot (head % cap) v (ap (λ h. h % cap) z ∙ sym e))
  ring-store array v (suc count) head slot fits e =
      let z : head + 0 ≡ head = omega arith in
      let later : head + suc count ≡ head + 1 + count = omega arith in
      ap₂ ◌∷◌
        (store_ne array slot (head % cap) v
          (λ q. goes.apart head 0 (suc count) (omega arith) fits (ap (λ h. h % cap) z ∙ q ∙ e)))
        (ring-store array v count (head + 1) slot (omega arith) (e ∙ ap (λ h. h % cap) later))
