-- ===== src/Emu/Layouts.antt =====
-- What the generator builds is what the decoder reads: the pixel data of the six layouts.
use libkatherine.Base.{ℕ, ◌+◌, ◌^◌, ◌<◌, ◌≡◌, refl, ap, arith, Bool, true, false, u64}
use libkatherine.Base.{List, [], ◌∷◌}
use libkatherine.Bitfield.{Field, IsField, extract}
use libkatherine.Bitfield.Many.{extract-inserts, reads, clear}
use libkatherine.Md
use libkatherine.Md.FToaTot
use libkatherine.Md.ToaTot
use libkatherine.Md.FToaOnly
use libkatherine.Md.ToaOnly
use libkatherine.Md.FEventItot
use libkatherine.Md.EventItot
use libkatherine.Base.{zero, suc}
use libkatherine.Px.{Pixel}
use libkatherine.Acq.Decode.{Kind, kind, kind_of}
use libkatherine.Emu.Generator.{Hit, build_hit_md}

-- The fields of a hit fit their widths on the wire.
pub record IsHit (hit : Hit) : Type 0 where
  pub x_lt : hit.x < 2 ^ 8
  pub y_lt : hit.y < 2 ^ 8
  pub toa_lt : hit.toa < 2 ^ 14
  pub ftoa_lt : hit.ftoa < 2 ^ 4
  pub hit_count_lt : hit.hit_count < 2 ^ 4
  pub tot_lt : hit.tot < 2 ^ 10
  pub event_count_lt : hit.event_count < 2 ^ 10
  pub integral_tot_lt : hit.integral_tot < 2 ^ 14

-- The pixel that a hit is, in each layout.
abbrev pub pixel_of : ℕ → Bool → ℕ → Hit → Pixel
pixel_of zero true off hit = Pixel.f_toa_tot (record {
  coord = record { x = hit.x; y = hit.y };
  toa = u64 (hit.toa + off);
  ftoa = hit.ftoa;
  tot = hit.tot;
})
pixel_of zero false off hit = Pixel.toa_tot (record {
  coord = record { x = hit.x; y = hit.y };
  toa = u64 (hit.toa + off);
  hit_count = hit.hit_count;
  tot = hit.tot;
})
pixel_of (suc zero) true off hit =
    Pixel.f_toa_only (record {
      coord = record { x = hit.x; y = hit.y };
      toa = u64 (hit.toa + off);
      ftoa = hit.ftoa;
    })
pixel_of (suc zero) false off hit = Pixel.toa_only (record {
  coord = record { x = hit.x; y = hit.y };
  toa = u64 (hit.toa + off);
  hit_count = hit.hit_count;
})
pixel_of (suc (suc k)) true off hit = Pixel.f_event_itot (record {
  coord = record { x = hit.x; y = hit.y };
  hit_count = hit.hit_count;
  event_count = hit.event_count;
  integral_tot = hit.integral_tot;
})
pixel_of (suc (suc k)) false off hit = Pixel.event_itot (record {
  coord = record { x = hit.x; y = hit.y };
  event_count = hit.event_count;
  integral_tot = hit.integral_tot;
})

-- The pixel that the decoder makes of a datum, in each layout.
abbrev pub decoded : ℕ → Bool → ℕ → ℕ → Pixel
decoded zero true off md = Pixel.f_toa_tot (FToaTot.pixel_map off md)
decoded zero false off md = Pixel.toa_tot (ToaTot.pixel_map off md)
decoded (suc zero) true off md = Pixel.f_toa_only (FToaOnly.pixel_map off md)
decoded (suc zero) false off md = Pixel.toa_only (ToaOnly.pixel_map off md)
decoded (suc (suc k)) true off md = Pixel.f_event_itot (FEventItot.pixel_map md)
decoded (suc (suc k)) false off md = Pixel.event_itot (EventItot.pixel_map md)

module _ (hit : Hit) where
  abbrev f_toa_tot_sets : List (Field × ℕ)
  f_toa_tot_sets =
      (Md.header, 4)
      ∷ (FToaTot.coord_x, hit.x)
      ∷ (FToaTot.coord_y, hit.y)
      ∷ (FToaTot.toa, hit.toa)
      ∷ (FToaTot.ftoa, hit.ftoa)
      ∷ (FToaTot.tot, hit.tot)
      ∷ []

  f_toa_tot_read :
      (g : Field)
      → IsField g
      → clear f_toa_tot_sets g ≡ true
      → extract (build_hit_md 0 true hit) g ≡ reads (extract 0 g) f_toa_tot_sets g
  unfolding build_hit_md
  f_toa_tot_read g ok c = extract-inserts 0 f_toa_tot_sets g c ok (omega arith)

  abbrev toa_tot_sets : List (Field × ℕ)
  toa_tot_sets =
      (Md.header, 4)
      ∷ (ToaTot.coord_x, hit.x)
      ∷ (ToaTot.coord_y, hit.y)
      ∷ (ToaTot.toa, hit.toa)
      ∷ (ToaTot.hit_count, hit.hit_count)
      ∷ (ToaTot.tot, hit.tot)
      ∷ []

  toa_tot_read :
      (g : Field)
      → IsField g
      → clear toa_tot_sets g ≡ true
      → extract (build_hit_md 0 false hit) g ≡ reads (extract 0 g) toa_tot_sets g
  unfolding build_hit_md
  toa_tot_read g ok c = extract-inserts 0 toa_tot_sets g c ok (omega arith)

  abbrev f_toa_only_sets : List (Field × ℕ)
  f_toa_only_sets =
      (Md.header, 4)
      ∷ (FToaOnly.coord_x, hit.x)
      ∷ (FToaOnly.coord_y, hit.y)
      ∷ (FToaOnly.toa, hit.toa)
      ∷ (FToaOnly.ftoa, hit.ftoa)
      ∷ []

  f_toa_only_read :
      (g : Field)
      → IsField g
      → clear f_toa_only_sets g ≡ true
      → extract (build_hit_md 1 true hit) g ≡ reads (extract 0 g) f_toa_only_sets g
  unfolding build_hit_md
  f_toa_only_read g ok c = extract-inserts 0 f_toa_only_sets g c ok (omega arith)

  abbrev toa_only_sets : List (Field × ℕ)
  toa_only_sets =
      (Md.header, 4)
      ∷ (ToaOnly.coord_x, hit.x)
      ∷ (ToaOnly.coord_y, hit.y)
      ∷ (ToaOnly.toa, hit.toa)
      ∷ (ToaOnly.hit_count, hit.hit_count)
      ∷ []

  toa_only_read :
      (g : Field)
      → IsField g
      → clear toa_only_sets g ≡ true
      → extract (build_hit_md 1 false hit) g ≡ reads (extract 0 g) toa_only_sets g
  unfolding build_hit_md
  toa_only_read g ok c = extract-inserts 0 toa_only_sets g c ok (omega arith)

  abbrev f_event_itot_sets : List (Field × ℕ)
  f_event_itot_sets =
      (Md.header, 4)
      ∷ (FEventItot.coord_x, hit.x)
      ∷ (FEventItot.coord_y, hit.y)
      ∷ (FEventItot.hit_count, hit.hit_count)
      ∷ (FEventItot.event_count, hit.event_count)
      ∷ (FEventItot.integral_tot, hit.integral_tot)
      ∷ []

  f_event_itot_read :
      (g : Field)
      → IsField g
      → clear f_event_itot_sets g ≡ true
      → extract (build_hit_md 2 true hit) g ≡ reads (extract 0 g) f_event_itot_sets g
  unfolding build_hit_md
  f_event_itot_read g ok c = extract-inserts 0 f_event_itot_sets g c ok (omega arith)

  abbrev event_itot_sets : List (Field × ℕ)
  event_itot_sets =
      (Md.header, 4)
      ∷ (EventItot.coord_x, hit.x)
      ∷ (EventItot.coord_y, hit.y)
      ∷ (EventItot.event_count, hit.event_count)
      ∷ (EventItot.integral_tot, hit.integral_tot)
      ∷ []

  event_itot_read :
      (g : Field)
      → IsField g
      → clear event_itot_sets g ≡ true
      → extract (build_hit_md 2 false hit) g ≡ reads (extract 0 g) event_itot_sets g
  unfolding build_hit_md
  event_itot_read g ok c = extract-inserts 0 event_itot_sets g c ok (omega arith)

module _ (off : ℕ) (hit : Hit) (h : IsHit hit) where
  f_toa_tot_decoded : decoded 0 true off (build_hit_md 0 true hit) ≡ pixel_of 0 true off hit
  unfolding FToaTot.pixel_map
  f_toa_tot_decoded = ground (
    arith,
    f_toa_tot_read hit FToaTot.coord_x (omega arith) refl,
    f_toa_tot_read hit FToaTot.coord_y (omega arith) refl,
    f_toa_tot_read hit FToaTot.toa (omega arith) refl,
    f_toa_tot_read hit FToaTot.ftoa (omega arith) refl,
    f_toa_tot_read hit FToaTot.tot (omega arith) refl,
  )

  toa_tot_decoded : decoded 0 false off (build_hit_md 0 false hit) ≡ pixel_of 0 false off hit
  unfolding ToaTot.pixel_map
  toa_tot_decoded = ground (
    arith,
    toa_tot_read hit ToaTot.coord_x (omega arith) refl,
    toa_tot_read hit ToaTot.coord_y (omega arith) refl,
    toa_tot_read hit ToaTot.toa (omega arith) refl,
    toa_tot_read hit ToaTot.hit_count (omega arith) refl,
    toa_tot_read hit ToaTot.tot (omega arith) refl,
  )

  f_toa_only_decoded : decoded 1 true off (build_hit_md 1 true hit) ≡ pixel_of 1 true off hit
  unfolding FToaOnly.pixel_map
  f_toa_only_decoded = ground (
    arith,
    f_toa_only_read hit FToaOnly.coord_x (omega arith) refl,
    f_toa_only_read hit FToaOnly.coord_y (omega arith) refl,
    f_toa_only_read hit FToaOnly.toa (omega arith) refl,
    f_toa_only_read hit FToaOnly.ftoa (omega arith) refl,
  )

  toa_only_decoded : decoded 1 false off (build_hit_md 1 false hit) ≡ pixel_of 1 false off hit
  unfolding ToaOnly.pixel_map
  toa_only_decoded = ground (
    arith,
    toa_only_read hit ToaOnly.coord_x (omega arith) refl,
    toa_only_read hit ToaOnly.coord_y (omega arith) refl,
    toa_only_read hit ToaOnly.toa (omega arith) refl,
    toa_only_read hit ToaOnly.hit_count (omega arith) refl,
  )

  f_event_itot_decoded : decoded 2 true off (build_hit_md 2 true hit) ≡ pixel_of 2 true off hit
  unfolding FEventItot.pixel_map
  f_event_itot_decoded = ground (
    arith,
    f_event_itot_read hit FEventItot.coord_x (omega arith) refl,
    f_event_itot_read hit FEventItot.coord_y (omega arith) refl,
    f_event_itot_read hit FEventItot.hit_count (omega arith) refl,
    f_event_itot_read hit FEventItot.event_count (omega arith) refl,
    f_event_itot_read hit FEventItot.integral_tot (omega arith) refl,
  )

  event_itot_decoded : decoded 2 false off (build_hit_md 2 false hit) ≡ pixel_of 2 false off hit
  unfolding EventItot.pixel_map
  event_itot_decoded = ground (
    arith,
    event_itot_read hit EventItot.coord_x (omega arith) refl,
    event_itot_read hit EventItot.coord_y (omega arith) refl,
    event_itot_read hit EventItot.event_count (omega arith) refl,
    event_itot_read hit EventItot.integral_tot (omega arith) refl,
  )

-- The decoder reads back what the generator builds: for every mode, with either oscillator, and
-- every hit whose fields fit their widths, the datum is a pixel datum, and its pixel is the hit, with
-- the time offset added to its time of arrival.
pub decoded-build_hit_md :
    (acq_mode off : ℕ) (fast_vco : Bool) (hit : Hit)
    → acq_mode < 3
    → IsHit hit
    → (kind (build_hit_md acq_mode fast_vco hit) ≡ Kind.pixel)
      × (decoded acq_mode fast_vco off (build_hit_md acq_mode fast_vco hit)
          ≡ pixel_of acq_mode fast_vco off hit)
unfolding kind_of
decoded-build_hit_md zero off true hit lt h =
    (ap kind_of (f_toa_tot_read hit Md.header (omega arith) refl), f_toa_tot_decoded off hit h)
decoded-build_hit_md zero off false hit lt h =
    (ap kind_of (toa_tot_read hit Md.header (omega arith) refl), toa_tot_decoded off hit h)
decoded-build_hit_md (suc zero) off true hit lt h =
    (ap kind_of (f_toa_only_read hit Md.header (omega arith) refl), f_toa_only_decoded off hit h)
decoded-build_hit_md (suc zero) off false hit lt h =
    (ap kind_of (toa_only_read hit Md.header (omega arith) refl), toa_only_decoded off hit h)
decoded-build_hit_md (suc (suc zero)) off true hit lt h = (
  ap kind_of (f_event_itot_read hit Md.header (omega arith) refl),
  f_event_itot_decoded off hit h,
)
decoded-build_hit_md (suc (suc zero)) off false hit lt h =
    (ap kind_of (event_itot_read hit Md.header (omega arith) refl), event_itot_decoded off hit h)
decoded-build_hit_md (suc (suc (suc k))) off fast_vco hit lt h = absurd (omega arith)
