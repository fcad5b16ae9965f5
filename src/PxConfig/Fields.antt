-- ===== src/PxConfig/Fields.antt =====
-- The accessors of one pixel: what each setter changes and what it leaves alone; and the fields that
-- a matrix loaded from BPC data has.
use libkatherine.Base.{ℕ, zero, suc, ◌+◌, ◌*◌, ◌/◌, ◌%◌, ◌^◌, ◌≤◌, ◌<◌, u8, ltb, if◌then◌else◌}
use libkatherine.Base.{◌≡◌, refl, ◌∙◌, ap, sym, arith, ◌==◌, ◌&&◌, true, false, Bool}
use libkatherine.Base.{Bool-cases, inl, inr, ◌⊎◌}
use libkatherine.Bitfield.{Field, IsField, extract, insert}
use libkatherine.Bitfield.Arith.{extract_arith}
use libkatherine.Bitfield.Laws.{low_field, extract-insert_self, extract-insert_disjoint}
use libkatherine.Px.{Coord}
use libkatherine.PxConfig.{Words, get_byte, set_byte, bmc_px_mask, bmc_px_test, bmc_px_loc_thl}
use libkatherine.PxConfig.{set_test_bit, get_test_bit, set_mask_bit, get_mask_bit, of_bool}
use libkatherine.PxConfig.{set_loc_thl, get_loc_thl, from_bpc, load_bpc_data}
use libkatherine.PxConfig.Bytes.{IsCoord, same_coord, get_byte-set_byte}
use libkatherine.PxConfig.Load.{get_byte-load_bpc_data}

-- A field of the low byte does not see the cast to uint8_t.
extract-u8 :
    (v : ℕ) (g : Field) → IsField g → g.start + g.width ≤ 8 → extract (u8 v) g ≡ extract v g
extract-u8 v g ok low =
    extract_arith (u8 v) g ok ∙ sym (low_field g.start g.width 8 v low) ∙ sym (extract_arith v g ok)

get_byte-lt : (words : Words) (c : Coord) → get_byte words c < 256
unfolding get_byte
get_byte-lt words c = omega arith

same_coord-eq : (c d : Coord) → same_coord c d ≡ true → c ≡ d
unfolding same_coord
same_coord-eq c d h = ground arith

-- A field of any pixel after a field of one pixel has been set.
module _ (words : Words) (c d : Coord) (hc : IsCoord c) (hd : IsCoord d) (f : Field) (x : ℕ)
    (ok : IsField f) (low : f.start + f.width ≤ 8) where
  new_byte : ℕ
  new_byte = u8 (insert (get_byte words c) f x)

  new_byte-lt : new_byte < 256
  unfolding new_byte
  new_byte-lt = omega arith

  word-lt : get_byte words c < 2 ^ 64
  word-lt = omega (arith, get_byte-lt words c)

  after : Words
  after = set_byte words c (u8 (insert (get_byte words c) f x))

  extract-set_self :
      extract (get_byte after d) f
      ≡ (if same_coord c d then x % 2 ^ f.width else extract (get_byte words d) f)
  unfolding after new_byte
  extract-set_self =
      ap (λ t. extract t f) (get_byte-set_byte words c d new_byte hc hd new_byte-lt)
      ∙ (elim (Bool-cases (same_coord c d)) [
        | inl e ↦ rw e (
            extract-u8 (insert (get_byte words c) f x) f ok low
            ∙ extract-insert_self (get_byte words c) f x ok word-lt)
        | inr e ↦ rw e
      ])

  extract-set_other :
      (g : Field)
      → IsField g
      → g.start + g.width ≤ 8
      → (f.start + f.width ≤ g.start) ⊎ (g.start + g.width ≤ f.start)
      → extract (get_byte after d) g ≡ extract (get_byte words d) g
  unfolding after new_byte
  extract-set_other g ok' low' apart =
      ap (λ t. extract t g) (get_byte-set_byte words c d new_byte hc hd new_byte-lt)
      ∙ (elim (Bool-cases (same_coord c d)) [
        | inl e ↦ rw e (
            extract-u8 (insert (get_byte words c) f x) g ok' low'
            ∙ extract-insert_disjoint (get_byte words c) f g x ok ok' word-lt apart
            ∙ ap (λ k. extract (get_byte words k) g) (same_coord-eq c d e))
        | inr e ↦ rw e
      ])

of_bool-ltb : (b : Bool) → ltb 0 (of_bool b % 2 ^ 1) ≡ b
of_bool-ltb true = refl
of_bool-ltb false = refl

mask-IsField : IsField bmc_px_mask
mask-IsField = omega arith

test-IsField : IsField bmc_px_test
test-IsField = omega arith

loc_thl-IsField : IsField bmc_px_loc_thl
loc_thl-IsField = omega arith

module _ (words : Words) (c d : Coord) (hc : IsCoord c) (hd : IsCoord d) where
  -- For pixels of the 256 by 256 matrix: `katherine_px_config_set_test_bit` sets the test bit of its pixel to the given value; the test
  -- bits of the other pixels, and the mask bits and thresholds of all pixels, stay as they were.
  pub set_test_bit_lem :
      (b : Bool)
      → let after = set_test_bit words c b in
        (get_test_bit after d ≡ (if same_coord c d then b else get_test_bit words d))
        × (get_mask_bit after d ≡ get_mask_bit words d)
        × (get_loc_thl after d ≡ get_loc_thl words d)
  unfolding set_test_bit get_test_bit get_mask_bit get_loc_thl after new_byte
  set_test_bit_lem b = (
    ground (
      arith,
      extract-set_self words c d hc hd bmc_px_test (of_bool b) test-IsField (omega arith),
      of_bool-ltb b,
    ),
    ap (ltb 0) (
        extract-set_other words c d hc hd bmc_px_test (of_bool b) test-IsField (omega arith)
          bmc_px_mask mask-IsField (omega arith) (inr (omega arith))),
    extract-set_other words c d hc hd bmc_px_test (of_bool b) test-IsField (omega arith)
        bmc_px_loc_thl loc_thl-IsField (omega arith) (inr (omega arith)),
  )

  -- For pixels of the 256 by 256 matrix: `katherine_px_config_set_mask_bit` sets the mask bit of its pixel to the given value; the mask
  -- bits of the other pixels, and the test bits and thresholds of all pixels, stay as they were.
  pub set_mask_bit_lem :
      (b : Bool)
      → let after = set_mask_bit words c b in
        (get_mask_bit after d ≡ (if same_coord c d then b else get_mask_bit words d))
        × (get_test_bit after d ≡ get_test_bit words d)
        × (get_loc_thl after d ≡ get_loc_thl words d)
  unfolding set_mask_bit get_test_bit get_mask_bit get_loc_thl after new_byte
  set_mask_bit_lem b = (
    ground (
      arith,
      extract-set_self words c d hc hd bmc_px_mask (of_bool b) mask-IsField (omega arith),
      of_bool-ltb b,
    ),
    ap (ltb 0) (
        extract-set_other words c d hc hd bmc_px_mask (of_bool b) mask-IsField (omega arith)
          bmc_px_test test-IsField (omega arith) (inl (omega arith))),
    extract-set_other words c d hc hd bmc_px_mask (of_bool b) mask-IsField (omega arith)
        bmc_px_loc_thl loc_thl-IsField (omega arith) (inl (omega arith)),
  )

  -- For pixels of the 256 by 256 matrix: `katherine_px_config_set_loc_thl` sets the threshold of its pixel to the given value modulo 16;
  -- the thresholds of the other pixels, and the mask and test bits of all pixels, stay as they were.
  pub set_loc_thl_lem :
      (thl : ℕ)
      → let after = set_loc_thl words c thl in
        (get_loc_thl after d ≡ (if same_coord c d then thl % 16 else get_loc_thl words d))
        × (get_mask_bit after d ≡ get_mask_bit words d)
        × (get_test_bit after d ≡ get_test_bit words d)
  unfolding set_loc_thl get_test_bit get_mask_bit get_loc_thl after new_byte
  set_loc_thl_lem thl = (
    extract-set_self words c d hc hd bmc_px_loc_thl thl loc_thl-IsField (omega arith),
    ap (ltb 0) (
        extract-set_other words c d hc hd bmc_px_loc_thl thl loc_thl-IsField (omega arith)
          bmc_px_mask mask-IsField (omega arith) (inr (omega arith))),
    ap (ltb 0) (
        extract-set_other words c d hc hd bmc_px_loc_thl thl loc_thl-IsField (omega arith)
          bmc_px_test test-IsField (omega arith) (inl (omega arith))),
  )

-- The four bits of a number in the reverse order.
abbrev pub reverse4 : ℕ → ℕ
reverse4 n = n % 2 * 8 + n / 2 % 2 * 4 + n / 4 % 2 * 2 + n / 8 % 2

all_below : ℕ → (ℕ → Bool) → Bool
all_below zero p = true
all_below (suc n) p = p n && all_below n p

all_below_sound : (n : ℕ) (p : ℕ → Bool) (k : ℕ) → all_below n p ≡ true → k < n → p k ≡ true
unfolding all_below
all_below_sound zero p k h lt = absurd (omega arith)
all_below_sound (suc n) p k h lt = ground (arith, all_below_sound n p k)

abbrev converts : ℕ → Bool
converts b =
    extract (from_bpc b) bmc_px_mask == b % 2
    && extract (from_bpc b) bmc_px_loc_thl == reverse4 (b / 2)
    && extract (from_bpc b) bmc_px_test == b / 32 % 2

converts_table : all_below 256 converts ≡ true
unfolding all_below extract from_bpc
converts_table = refl

-- A matrix loaded from BPC data (bytes below 256) has, for every pixel of the 256 by 256 matrix, the
-- mask and the test bit that the file holds for the pixel, and as threshold the four threshold bits of the file in reverse order.
pub load_bpc_data-fields :
    (src : ℕ → ℕ) (d : Coord)
    → ((i : ℕ) → src i < 256)
    → IsCoord d
    → let b = src (256 * d.y + d.x) in
      (get_mask_bit (load_bpc_data src) d ≡ ltb 0 (b % 2))
      × (get_test_bit (load_bpc_data src) d ≡ ltb 0 (b / 32 % 2))
      × (get_loc_thl (load_bpc_data src) d ≡ reverse4 (b / 2))
unfolding get_mask_bit get_test_bit get_loc_thl
load_bpc_data-fields src d hs hd = ground (
  arith,
  get_byte-load_bpc_data src d hd,
  all_below_sound 256 converts (src (256 * d.y + d.x)) converts_table (hs (256 * d.y + d.x)),
)
