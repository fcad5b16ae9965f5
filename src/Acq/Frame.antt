-- ===== src/Acq/Frame.antt =====
-- One frame of the stream, and the report that the user is given when it ends.
use mathlib.Core.Path.{transport}
use libkatherine.Base.{ℕ, ◌+◌, ◌%◌, ◌^◌, ◌<◌, ◌≡◌, refl, ◌∙◌, ap, ap₂, arith, Bool}
use libkatherine.Base.{true, false, List, [], ◌∷◌, ◌++◌, Option, some, none, ◌==◌, if◌then◌else◌}
use libkatherine.Bitfield.{extract}
use libkatherine.Md
use libkatherine.Px.{Pixel}
use libkatherine.Acq.{Acq, Call, State}
use libkatherine.Acq.Decode.{Kind, kind, handle_kind, handle_measurement_data}
use libkatherine.Acq.Delivery.{IsBounded, one-IsBounded}

-- What the data between the two ends of a frame say.
abbrev pub is_hit : Kind → ℕ
is_hit Kind.pixel = 1
is_hit _ = 0

abbrev pub lost_by : Kind → ℕ → ℕ
lost_by Kind.lost_pixels md = extract md Md.lost_px_n_lost
lost_by _ md = 0

abbrev pub hit_total : List (ℕ × ℕ) → ℕ
hit_total [] = 0
hit_total ((now, md) ∷ mds) = is_hit (kind md) + hit_total mds

abbrev pub lost_total : List (ℕ × ℕ) → ℕ
lost_total [] = 0
lost_total ((now, md) ∷ mds) = lost_by (kind md) md + lost_total mds

abbrev pub IsInner : Kind → Type 0
IsInner Kind.new_frame = ⊥
IsInner Kind.frame_finished = ⊥
IsInner _ = Unit {0}

-- None of the data opens or closes a frame.
abbrev pub IsBody : List (ℕ × ℕ) → Type 0
IsBody [] = Unit {0}
IsBody ((now, md) ∷ mds) = IsInner (kind md) × IsBody mds

-- Counted into the frame, or still in the buffer.
abbrev pub counted : Acq → ℕ
counted acq = acq.current_frame_info.received_pixels + acq.pixel_buffer_valid

abbrev pub latest : List Call → Option Call
latest [] = none
latest (c ∷ cs) = some c

-- The frame is closed, and with a handler the latest call was its report.
pub record Reports (acq : Acq) (handled : Bool) (frame hits lost sent started ended : ℕ)
    (state : State) : Type 0 where
  pub told :
      handled ≡ true → latest acq.calls ≡ some (Call.frame_ended frame true acq.current_frame_info)
  pub received_pixels : acq.current_frame_info.received_pixels ≡ hits
  pub lost_pixels : acq.current_frame_info.lost_pixels ≡ lost
  pub sent_pixels : acq.current_frame_info.sent_pixels ≡ sent
  pub completed : acq.current_frame_info.completed ≡ true
  pub start_observed : acq.current_frame_info.start_time_observed ≡ started
  pub end_observed : acq.current_frame_info.end_time_observed ≡ ended
  pub frames : acq.completed_frames ≡ frame + 1
  pub emptied : acq.pixel_buffer_valid ≡ 0
  pub inactive : acq.frame_active ≡ false
  pub becomes : acq.state ≡ state

-- How far the frame has come from `acq` to `acq'`.
record Advanced (acq acq' : Acq) (n lost : ℕ) : Type 0 where
  bounded : IsBounded acq'
  hits : counted acq' % 2 ^ 64 ≡ (counted acq + n) % 2 ^ 64
  losses :
      acq'.current_frame_info.lost_pixels ≡ (acq.current_frame_info.lost_pixels + lost) % 2 ^ 64
  frames : acq'.completed_frames ≡ acq.completed_frames
  requested : acq'.requested_frames ≡ acq.requested_frames
  same_state : acq'.state ≡ acq.state
  same_handlers : acq'.handlers ≡ acq.handlers
  opened : acq'.current_frame_info.start_time_observed ≡ acq.current_frame_info.start_time_observed

module _ (pixel_map : ℕ → ℕ → Pixel) where
  one-Advanced :
      (k : Kind) (now md : ℕ) {acq : Acq}
      → IsInner k
      → IsBounded acq
      → acq.current_frame_info.lost_pixels < 2 ^ 64
      → Advanced acq (handle_kind pixel_map k now md acq) (is_hit k) (lost_by k md)
  unfolding handle_kind
  one-Advanced Kind.new_frame now md inner b small = elim inner [ ]
  one-Advanced Kind.frame_finished now md inner b small = elim inner [ ]
  one-Advanced Kind.pixel now md inner b small = record {
    bounded = one-IsBounded pixel_map Kind.pixel now md b;
    hits = ground arith;
    losses = ground arith;
    frames = ground arith;
    requested = ground arith;
    same_state = ground arith;
    same_handlers = ground arith;
    opened = ground arith;
  }
  one-Advanced k now md inner b small = record {
    bounded = one-IsBounded pixel_map k now md b;
    hits = ground arith;
    losses = ground arith;
    frames = ground arith;
    requested = ground arith;
    same_state = ground arith;
    same_handlers = ground arith;
    opened = ground arith;
  }

  -- All data of a list, in order, each at its own reading of the clock.
  unfoldable pub handle_timed : List (ℕ × ℕ) → Acq → Acq
  handle_timed [] acq = acq
  handle_timed ((now, md) ∷ mds) acq =
      handle_timed mds (handle_measurement_data pixel_map now md acq)

  body-Advanced :
      (mds : List (ℕ × ℕ)) {acq : Acq}
      → IsBody mds
      → IsBounded acq
      → acq.current_frame_info.lost_pixels < 2 ^ 64
      → Advanced acq (handle_timed mds acq) (hit_total mds) (lost_total mds)
  unfolding handle_timed handle_measurement_data
  body-Advanced [] inner b small = record {
    bounded = b;
    hits = omega arith;
    losses = omega arith;
    frames = refl;
    requested = refl;
    same_state = refl;
    same_handlers = refl;
    opened = refl;
  }
  body-Advanced ((now, md) ∷ mds) inner b small =
      let first = one-Advanced (kind md) now md inner.0 b small in
      let rest = body-Advanced mds inner.1 first.bounded (omega (arith, first.losses)) in
      record {
        bounded = rest.bounded;
        hits = omega (arith, first.hits, rest.hits);
        losses = omega (arith, first.losses, rest.losses);
        frames = rest.frames ∙ first.frames;
        requested = rest.requested ∙ first.requested;
        same_state = rest.same_state ∙ first.same_state;
        same_handlers = rest.same_handlers ∙ first.same_handlers;
        opened = rest.opened ∙ first.opened;
      }

  handle_timed-append :
      (xs ys : List (ℕ × ℕ)) (acq : Acq)
      → handle_timed (xs ++ ys) acq ≡ handle_timed ys (handle_timed xs acq)
  unfolding handle_timed
  handle_timed-append [] ys acq = refl
  handle_timed-append ((now, md) ∷ xs) ys acq =
      handle_timed-append xs ys (handle_measurement_data pixel_map now md acq)

  -- The state after the first datum of a frame.
  opened_frame :
      (now md : ℕ) (acq : Acq)
      → let acq' = handle_kind pixel_map Kind.new_frame now md acq in
        (counted acq' ≡ acq.pixel_buffer_valid)
        × (acq'.current_frame_info.lost_pixels ≡ 0)
        × (acq'.completed_frames ≡ acq.completed_frames)
        × (acq'.requested_frames ≡ acq.requested_frames)
        × (acq'.state ≡ acq.state)
        × (acq'.handlers ≡ acq.handlers)
        × (acq'.current_frame_info.start_time_observed ≡ now)
  unfolding handle_kind
  opened_frame now md acq = ground arith

  -- The state after the last.
  closed_frame :
      (now md : ℕ) (acq : Acq)
      → Reports
          (handle_kind pixel_map Kind.frame_finished now md acq)
          acq.handlers.frame_ended
          acq.completed_frames
          (counted acq % 2 ^ 64)
          acq.current_frame_info.lost_pixels
          (extract md Md.frame_finished_n_sent)
          acq.current_frame_info.start_time_observed
          now
          (if acq.completed_frames + 1 == acq.requested_frames then State.succeeded else acq.state)
  unfolding handle_kind
  closed_frame now md acq = ground arith

  frame_ends :
      (t₁ t₂ first last : ℕ) (body : List (ℕ × ℕ)) (acq : Acq)
      → kind first ≡ Kind.new_frame
      → kind last ≡ Kind.frame_finished
      → handle_timed ((t₁, first) ∷ body ++ ((t₂, last) ∷ [])) acq
        ≡ handle_kind pixel_map Kind.frame_finished t₂ last
            (handle_timed body (handle_kind pixel_map Kind.new_frame t₁ first acq))
  unfolding handle_timed handle_measurement_data
  frame_ends t₁ t₂ first last body acq kf kl =
      handle_timed-append ((t₁, first) ∷ body) ((t₂, last) ∷ []) acq
      ∙ ap₂
          (λ k l.
            handle_kind pixel_map l t₂ last
              (handle_timed body (handle_kind pixel_map k t₁ first acq)))
          kf kl

  -- A stream of a new frame datum, data that neither open nor close a frame, and a frame finished
  -- datum, each handled at its own reading of the clock, from a bounded buffer: the frame has the
  -- number of its pixel data, with those that waited in the buffer when it began, and the sum of its
  -- lost pixels (both modulo 2 ^ 64), the count that the readout sent, and the readings at its first and
  -- its last datum as observed times. The frame is counted and no longer active, the buffer is empty,
  -- and the state becomes succeeded if this was the last frame asked for, else it stays. Where a
  -- frame_ended handler is registered, the latest call is the report of that frame as completed.
  pub frame_reported :
      (t₁ t₂ first last : ℕ) (body : List (ℕ × ℕ)) (acq : Acq)
      → IsBounded acq
      → kind first ≡ Kind.new_frame
      → IsBody body
      → kind last ≡ Kind.frame_finished
      → Reports
          (handle_timed ((t₁, first) ∷ body ++ ((t₂, last) ∷ [])) acq)
          acq.handlers.frame_ended
          acq.completed_frames
          ((acq.pixel_buffer_valid + hit_total body) % 2 ^ 64)
          (lost_total body % 2 ^ 64)
          (extract last Md.frame_finished_n_sent)
          t₁
          t₂
          (if acq.completed_frames + 1 == acq.requested_frames then State.succeeded else acq.state)
  frame_reported t₁ t₂ first last body acq b kf inner kl =
      let acq₁ = handle_kind pixel_map Kind.new_frame t₁ first acq in
      let acq₂ = handle_timed body acq₁ in
      let opened = opened_frame t₁ first acq in
      let middle =
        body-Advanced body inner (one-IsBounded pixel_map Kind.new_frame t₁ first b)
          (omega (arith, opened.1)) in
      let handled : acq₂.handlers.frame_ended ≡ acq.handlers.frame_ended =
        ap (λ h. h.frame_ended) (middle.same_handlers ∙ opened.5) in
      let frames : acq₂.completed_frames ≡ acq.completed_frames = middle.frames ∙ opened.2 in
      let requested : acq₂.requested_frames ≡ acq.requested_frames = middle.requested ∙ opened.3 in
      let hits : counted acq₂ % 2 ^ 64 ≡ (acq.pixel_buffer_valid + hit_total body) % 2 ^ 64 =
        omega (arith, middle.hits, opened.0) in
      let lost : acq₂.current_frame_info.lost_pixels ≡ lost_total body % 2 ^ 64 =
        omega (arith, middle.losses, opened.1) in
      let state : acq₂.state ≡ acq.state = middle.same_state ∙ opened.4 in
      let started : acq₂.current_frame_info.start_time_observed ≡ t₁ = middle.opened ∙ opened.6 in
      rw (frame_ends t₁ t₂ first last body acq kf kl) (
        transport
          (λ i.
            Reports (handle_kind pixel_map Kind.frame_finished t₂ last acq₂) (handled i) (frames i)
              (hits i) (lost i) (extract last Md.frame_finished_n_sent) (started i) t₂
              (if frames i + 1 == requested i then State.succeeded else state i))
          (closed_frame t₂ last acq₂))
