-- ===== src/Bitfield/Laws.antt =====
-- What INSERT and EXTRACT promise one another.
use native.Mathlib.Nat.{one-le-pow, div-div-eq-div-mul, add-mul-div_right, add-mul-mod_self_right}
use native.Mathlib.Nat.{div-lt_iff_lt-mul}
use libkatherine.Base.{
  ℕ, ◌+◌, ◌-◌, ◌*◌, ◌/◌, ◌%◌, ◌^◌, ◌≤◌, ◌<◌, ◌≡◌, ap, sym, ◌∙◌, ◌⊎◌, inl, inr, arith,
}
use libkatherine.Bits.Join.{join_div, join_mod}
use libkatherine.Bitfield.{Field, IsField, extract, insert}
use libkatherine.Bitfield.Arith.{pow_add, extract_arith, insert_arith}

cut_pow : (s w k : ℕ) → s + w ≤ k → 2 ^ k ≡ 2 ^ (k - s - w) * 2 ^ w * 2 ^ s
cut_pow s w k h =
    let e : s + w + (k - s - w) ≡ k = omega arith in
    omega (
      arith,
      ap (λ (t : ℕ). 2 ^ t) e,
      pow_add (s + w) (k - s - w),
      ap (λ (t : ℕ). t * 2 ^ (k - s - w)) (pow_add s w),
    )

-- Bits below `k` do not depend on what stands above.
pub low_field : (s w k v : ℕ) → s + w ≤ k → v / 2 ^ s % 2 ^ w ≡ v % 2 ^ k / 2 ^ s % 2 ^ w
low_field s w k v h =
    let d : ℕ = k - s - w in
    let whole : v ≡ v % 2 ^ k + v / 2 ^ k * 2 ^ d * 2 ^ w * 2 ^ s =
      omega
        (arith, one-le-pow k 2 (omega arith), ap (λ (t : ℕ). v / 2 ^ k * t) (cut_pow s w k h)) in
    ap (λ t. t / 2 ^ s % 2 ^ w) whole
    ∙ rw (
      add-mul-div_right (v % 2 ^ k) (v / 2 ^ k * 2 ^ d * 2 ^ w) (one-le-pow s 2 (omega arith)),
      add-mul-mod_self_right (v % 2 ^ k / 2 ^ s) (v / 2 ^ k * 2 ^ d) (2 ^ w),
    )

-- Bits from `s + w` on, as a quotient of the part above the field.
high_field : (s w k v : ℕ) → s + w ≤ k → v / 2 ^ k ≡ v / 2 ^ s / 2 ^ w / 2 ^ (k - s - w)
high_field s w k v h =
    rw
      (div-div-eq-div-mul v (2 ^ s) (2 ^ w), div-div-eq-div-mul v (2 ^ s * 2 ^ w) (2 ^ (k - s - w)))
      (ap (λ t. v / t) (omega (arith, cut_pow s w k h)))

-- The three parts of a word after INSERT.
pub insert_parts :
    (v : ℕ) (f : Field) (x : ℕ)
    → IsField f
    → v < 2 ^ 64
    → (insert v f x / 2 ^ f.start / 2 ^ f.width ≡ v / 2 ^ f.start / 2 ^ f.width)
      × (insert v f x / 2 ^ f.start % 2 ^ f.width ≡ x % 2 ^ f.width)
      × (insert v f x % 2 ^ f.start ≡ v % 2 ^ f.start)
insert_parts v f x ok h =
    let s : ℕ = f.start in
    let w : ℕ = f.width in
    let a : ℕ = v / 2 ^ s / 2 ^ w in
    let mod_w : x % 2 ^ w < 2 ^ w = omega (arith, one-le-pow w 2) in
    let mod_s : v % 2 ^ s < 2 ^ s = omega (arith, one-le-pow s 2) in
    let whole : insert v f x ≡ (a * 2 ^ w + x % 2 ^ w) * 2 ^ s + v % 2 ^ s =
      insert_arith v f x ok h ∙ omega arith in
    let upper : insert v f x / 2 ^ s ≡ a * 2 ^ w + x % 2 ^ w =
      rw whole (join_div s (a * 2 ^ w + x % 2 ^ w) (v % 2 ^ s) mod_s) in
    (
      rw upper (join_div w a (x % 2 ^ w) mod_w),
      rw upper (join_mod w a (x % 2 ^ w) mod_w),
      rw whole (join_mod s (a * 2 ^ w + x % 2 ^ w) (v % 2 ^ s) mod_s),
    )

-- INSERT stays in the word.
pub insert-lt : (v : ℕ) (f : Field) (x : ℕ) → IsField f → v < 2 ^ 64 → insert v f x < 2 ^ 64
insert-lt v f x ok h =
    let r : ℕ = 64 - f.start - f.width in
    let cut : 2 ^ 64 ≡ 2 ^ r * 2 ^ f.width * 2 ^ f.start = cut_pow f.start f.width 64 ok.in_word in
    let pos_w : 1 ≤ 2 ^ f.width = one-le-pow f.width 2 (omega arith) in
    let pos_s : 1 ≤ 2 ^ f.start = one-le-pow f.start 2 (omega arith) in
    let high : v / 2 ^ f.start / 2 ^ f.width < 2 ^ r =
      (div-lt_iff_lt-mul pos_w).1 ((div-lt_iff_lt-mul pos_s).1 (rw (← cut) h)) in
    let bound : insert v f x < 2 ^ r * 2 ^ f.width * 2 ^ f.start =
      (div-lt_iff_lt-mul pos_s).0
        ((div-lt_iff_lt-mul pos_w).0 (rw (insert_parts v f x ok h).0 high)) in
    omega (arith, cut, bound)

-- For a 64-bit word, and a field that lies in it with a type that is wide enough: EXTRACT of the
-- field that INSERT has set gives the value, truncated to the width of the field.
pub extract-insert_self :
    (v : ℕ) (f : Field) (x : ℕ)
    → IsField f
    → v < 2 ^ 64
    → extract (insert v f x) f ≡ x % 2 ^ f.width
extract-insert_self v f x ok h = extract_arith (insert v f x) f ok ∙ (insert_parts v f x ok h).1

-- For a 64-bit word and two fields that lie in it, with types that are wide enough, one above the
-- other: EXTRACT of the one is not changed by INSERT into the other.
pub extract-insert_disjoint :
    (v : ℕ) (f g : Field) (x : ℕ)
    → IsField f
    → IsField g
    → v < 2 ^ 64
    → (f.start + f.width ≤ g.start) ⊎ (g.start + g.width ≤ f.start)
    → extract (insert v f x) g ≡ extract v g
extract-insert_disjoint v f g x ok ok' h (inl above) =
    extract_arith (insert v f x) g ok'
    ∙ rw
        (
          high_field f.start f.width g.start (insert v f x) above,
          (insert_parts v f x ok h).0,
          ← high_field f.start f.width g.start v above,
        )
        (sym (extract_arith v g ok'))
extract-insert_disjoint v f g x ok ok' h (inr below) =
    extract_arith (insert v f x) g ok'
    ∙ rw
        (
          low_field g.start g.width f.start (insert v f x) below,
          (insert_parts v f x ok h).2,
          ← low_field g.start g.width f.start v below,
        )
        (sym (extract_arith v g ok'))
