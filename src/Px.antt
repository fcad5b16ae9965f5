-- ===== src/Px.antt =====
-- c/include/katherine/px.h: the pixel types of the six acquisition modes. The pixel buffer of an
-- acquisition is untyped storage; `Pixel` is what one of its slots holds.
use libkatherine.Base.{ℕ}

pub record Coord : Type 0 where
  pub x : ℕ
  pub y : ℕ

pub record PxFToaTot : Type 0 where
  pub coord : Coord
  pub ftoa : ℕ
  pub toa : ℕ
  pub tot : ℕ

pub record PxToaTot : Type 0 where
  pub coord : Coord
  pub toa : ℕ
  pub hit_count : ℕ
  pub tot : ℕ

pub record PxFToaOnly : Type 0 where
  pub coord : Coord
  pub ftoa : ℕ
  pub toa : ℕ

pub record PxToaOnly : Type 0 where
  pub coord : Coord
  pub toa : ℕ
  pub hit_count : ℕ

pub record PxFEventItot : Type 0 where
  pub coord : Coord
  pub hit_count : ℕ
  pub event_count : ℕ
  pub integral_tot : ℕ

pub record PxEventItot : Type 0 where
  pub coord : Coord
  pub event_count : ℕ
  pub integral_tot : ℕ

pub data Pixel : Type 0 where
  f_toa_tot : PxFToaTot → Pixel
  toa_tot : PxToaTot → Pixel
  f_toa_only : PxFToaOnly → Pixel
  toa_only : PxToaOnly → Pixel
  f_event_itot : PxFEventItot → Pixel
  event_itot : PxEventItot → Pixel
