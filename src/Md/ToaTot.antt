-- ===== src/Md/ToaTot.antt =====
-- c/src/md.h: the layout pmd_toa_tot and its mapping to a pixel.
use libkatherine.Base.{ℕ, u8, u16, u64, ◌+◌}
use libkatherine.Bitfield.{Field, extract}
use libkatherine.Px.{PxToaTot}

abbrev pub hit_count : Field
hit_count = record { start = 0; width = 4; bits = 16 }

abbrev pub tot : Field
tot = record { start = 4; width = 10; bits = 16 }

abbrev pub toa : Field
toa = record { start = 14; width = 14; bits = 16 }

abbrev pub coord_x : Field
coord_x = record { start = 28; width = 8; bits = 16 }

abbrev pub coord_y : Field
coord_y = record { start = 36; width = 8; bits = 16 }

-- `pmd_toa_tot_map`; of the acquisition it reads the time offset alone.
unfoldable pub pixel_map : ℕ → ℕ → PxToaTot
pixel_map last_toa_offset src = record {
  coord = record { x = u8 (extract src coord_x); y = u8 (extract src coord_y) };
  toa = u64 (extract src toa + last_toa_offset);
  hit_count = u8 (extract src hit_count);
  tot = u16 (extract src tot);
}
