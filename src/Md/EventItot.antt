-- ===== src/Md/EventItot.antt =====
-- c/src/md.h: the layout pmd_event_itot and its mapping to a pixel.
use libkatherine.Base.{ℕ, u8, u16}
use libkatherine.Bitfield.{Field, extract}
use libkatherine.Px.{PxEventItot}

abbrev pub event_count : Field
event_count = record { start = 4; width = 10; bits = 16 }

abbrev pub integral_tot : Field
integral_tot = record { start = 14; width = 14; bits = 16 }

abbrev pub coord_x : Field
coord_x = record { start = 28; width = 8; bits = 16 }

abbrev pub coord_y : Field
coord_y = record { start = 36; width = 8; bits = 16 }

-- `pmd_event_itot_map`.
unfoldable pub pixel_map : ℕ → PxEventItot
pixel_map src = record {
  coord = record { x = u8 (extract src coord_x); y = u8 (extract src coord_y) };
  event_count = u16 (extract src event_count);
  integral_tot = u16 (extract src integral_tot);
}
