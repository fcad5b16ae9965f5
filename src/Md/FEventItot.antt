-- ===== src/Md/FEventItot.antt =====
-- c/src/md.h: the layout pmd_f_event_itot and its mapping to a pixel.
use libkatherine.Base.{ℕ, u8, u16}
use libkatherine.Bitfield.{Field, extract}
use libkatherine.Px.{PxFEventItot}

abbrev pub hit_count : Field
hit_count = record { start = 0; width = 4; bits = 16 }

abbrev pub event_count : Field
event_count = record { start = 4; width = 10; bits = 16 }

abbrev pub integral_tot : Field
integral_tot = record { start = 14; width = 14; bits = 16 }

abbrev pub coord_x : Field
coord_x = record { start = 28; width = 8; bits = 16 }

abbrev pub coord_y : Field
coord_y = record { start = 36; width = 8; bits = 16 }

-- `pmd_f_event_itot_map`.
unfoldable pub pixel_map : ℕ → PxFEventItot
pixel_map src = record {
  coord = record { x = u8 (extract src coord_x); y = u8 (extract src coord_y) };
  hit_count = u8 (extract src hit_count);
  event_count = u16 (extract src event_count);
  integral_tot = u16 (extract src integral_tot);
}
