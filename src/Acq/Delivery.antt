-- ===== src/Acq/Delivery.antt =====
-- No pixel of the stream is lost, repeated or reordered on its way to the user, and the buffer
-- never overflows.
use mathlib.Core.List.{append_assoc, append-nil}
use libkatherine.Base.{ℕ, ◌≤◌, ◌<◌, ◌^◌, ◌≡◌, ◌∙◌, ap, sym, arith, u64, ◌<<◌}
use libkatherine.Base.{true, List, [], ◌∷◌, ◌++◌, length}
use libkatherine.Base.{length-append, take, drop, zero, suc, refl, ◌+◌}
use libkatherine.Bitfield.{extract}
use libkatherine.Md
use libkatherine.Px.{Pixel}
use libkatherine.Acq.{Acq, Call}
use libkatherine.Acq.Decode.{Kind, kind, handle_kind, handle_measurement_data}

-- The pixels that the user has been given, in order: of each call, as many pixels of the buffer as the
-- count says. The trace has the latest call first.
abbrev pub delivered : List Call → List Pixel
delivered [] = []
delivered (Call.pixels_received ps n ∷ cs) = delivered cs ++ take n ps
delivered (_ ∷ cs) = delivered cs

-- Delivered or still in the buffer, below the count of the valid ones.
abbrev pub received : Acq → List Pixel
received acq = delivered acq.calls ++ take acq.pixel_buffer_valid acq.pixel_buffer

-- What a stream of data says, read on its own: a pixel for each pixel datum, with the time offset of
-- the latest offset datum of its frame.
abbrev pub next_offset : Kind → ℕ → ℕ → ℕ
next_offset Kind.time_offset off md = u64 (extract md Md.time_offset_offset << 14)
next_offset Kind.new_frame off md = 0
next_offset _ off md = off

module _ (pixel_map : ℕ → ℕ → Pixel) where
  abbrev pub hit : Kind → ℕ → ℕ → List Pixel
  hit Kind.pixel off md = pixel_map off md ∷ []
  hit _ off md = []

  abbrev pub hits : ℕ → List ℕ → List Pixel
  hits off [] = []
  hits off (md ∷ mds) = hit (kind md) off md ++ hits (next_offset (kind md) off md) mds

  -- All data of a list, in order, at one reading of the clock.
  unfoldable pub handle_all : ℕ → List ℕ → Acq → Acq
  handle_all now [] acq = acq
  handle_all now (md ∷ mds) acq = handle_all now mds (handle_measurement_data pixel_map now md acq)

take_whole : (xs : List Pixel) (n : ℕ) → length xs ≡ n → take n xs ≡ xs
take_whole [] zero e = refl
take_whole [] (suc n) e = refl
take_whole (x ∷ xs) zero e = absurd (omega (arith, e))
take_whole (x ∷ xs) (suc n) e = ap (λ t. x ∷ t) (take_whole xs n (omega (arith, e)))

-- A pixel that is stored at the end of what is valid goes behind it.
stored :
    (xs : List Pixel) (n : ℕ) (px : Pixel)
    → length xs ≡ n
    → take n xs ++ (px ∷ drop (suc n) xs) ≡ xs ++ (px ∷ [])
stored [] zero px e = refl
stored [] (suc n) px e = absurd (omega (arith, e))
stored (x ∷ xs) zero px e = absurd (omega (arith, e))
stored (x ∷ xs) (suc n) px e = ap (λ t. x ∷ t) (stored xs n px (omega (arith, e)))

-- The buffer is within its bound, and its length is the count that the code keeps.
pub record IsBounded (acq : Acq) : Type 0 where
  pub has_room : 0 < acq.pixel_buffer_max_valid
  pub fits_word : acq.pixel_buffer_max_valid < 2 ^ 64
  pub within : acq.pixel_buffer_valid ≤ acq.pixel_buffer_max_valid
  pub counted : length acq.pixel_buffer ≡ acq.pixel_buffer_valid

module _ (pixel_map : ℕ → ℕ → Pixel) where
  pub one-IsBounded :
      (k : Kind) (now md : ℕ) {acq : Acq}
      → IsBounded acq
      → IsBounded (handle_kind pixel_map k now md acq)
  unfolding handle_kind
  one-IsBounded Kind.pixel now md {acq} b = ground (
    arith,
    stored acq.pixel_buffer acq.pixel_buffer_valid (pixel_map acq.last_toa_offset md) b.counted,
    length-append acq.pixel_buffer (pixel_map acq.last_toa_offset md ∷ []),
  )
  one-IsBounded k now md b = ground arith

  -- A buffer with room for at least one pixel and for fewer than 2 ^ 64, that is within its bound, is
  -- within it after every sequence of data: it is never written past its end.
  pub handle_all-IsBounded :
      (now : ℕ) (mds : List ℕ) {acq : Acq}
      → IsBounded acq
      → IsBounded (handle_all pixel_map now mds acq)
  unfolding handle_all handle_measurement_data
  handle_all-IsBounded now [] b = b
  handle_all-IsBounded now (md ∷ mds) b =
      handle_all-IsBounded now mds (one-IsBounded (kind md) now md b)

module _ (pixel_map : ℕ → ℕ → Pixel) where
  one_received :
      (k : Kind) (now md : ℕ) (acq : Acq)
      → IsBounded acq
      → acq.handlers.pixels_received ≡ true
      → (received (handle_kind pixel_map k now md acq)
          ≡ received acq ++ hit pixel_map k acq.last_toa_offset md)
        × ((handle_kind pixel_map k now md acq).last_toa_offset
            ≡ next_offset k acq.last_toa_offset md)
        × ((handle_kind pixel_map k now md acq).handlers ≡ acq.handlers)
  unfolding handle_kind
  one_received Kind.pixel now md acq b h =
      let px = pixel_map acq.last_toa_offset md in
      ground (
        arith,
        append_assoc (delivered acq.calls) acq.pixel_buffer (px ∷ []),
        take_whole acq.pixel_buffer acq.pixel_buffer_valid b.counted,
        stored acq.pixel_buffer acq.pixel_buffer_valid px b.counted,
        take_whole (acq.pixel_buffer ++ (px ∷ [])) (acq.pixel_buffer_valid + 1)
            (length-append acq.pixel_buffer (px ∷ []) ∙ omega (arith, b.counted)),
      )
  one_received k now md acq b h = ground (
    arith,
    append-nil (received acq),
    append-nil (delivered acq.calls ++ take acq.pixel_buffer_valid acq.pixel_buffer),
  )

  received_all :
      (now : ℕ) (mds : List ℕ) (acq : Acq)
      → IsBounded acq
      → acq.handlers.pixels_received ≡ true
      → received (handle_all pixel_map now mds acq)
        ≡ received acq ++ hits pixel_map acq.last_toa_offset mds
  unfolding handle_all handle_measurement_data
  received_all now [] acq b h = sym (append-nil (received acq))
  received_all now (md ∷ mds) acq b h =
      let step = one_received (kind md) now md acq b h in
      let acq' = handle_kind pixel_map (kind md) now md acq in
      received_all now mds acq' (one-IsBounded pixel_map (kind md) now md b)
        (ap (λ r. r.pixels_received) step.2 ∙ h)
      ∙ rw (step.0, step.1)
          (append_assoc (received acq) (hit pixel_map (kind md) acq.last_toa_offset md)
            (hits pixel_map (next_offset (kind md) acq.last_toa_offset md) mds))

  -- No pixel is lost, repeated or reordered: with a pixel handler registered and a buffer that has room
  -- for a pixel, is within its bound and holds as many pixels as it counts, the pixels that were
  -- delivered before or waited in the buffer, followed by those of the stream, are the ones delivered
  -- afterwards, of each call as many as its count says, or waiting in the buffer below its count; and
  -- the buffer keeps its bound and its count, so that nothing is written past its end.
  pub received-handle_all :
      (now : ℕ) (mds : List ℕ) (acq : Acq)
      → IsBounded acq
      → acq.handlers.pixels_received ≡ true
      → (received (handle_all pixel_map now mds acq)
          ≡ received acq ++ hits pixel_map acq.last_toa_offset mds)
        × IsBounded (handle_all pixel_map now mds acq)
  received-handle_all now mds acq b h =
      (received_all now mds acq b h, handle_all-IsBounded pixel_map now mds b)
