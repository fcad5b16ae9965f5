-- ===== src/Acq/Words.antt =====
-- The loop over a datagram visits every whole datum of it, in order, and no trailing fragment.
use native.Mathlib.Nat.{sub-zero}
use libkatherine.Base.{ℕ, zero, suc, ◌+◌, ◌-◌, ◌*◌, ◌/◌, ◌≤◌, ◌<◌, ◌≡◌, ◌∙◌, arith, leb}
use libkatherine.Base.{Bool-cases, inl, inr, List, [], ◌∷◌}
use libkatherine.Px.{Pixel}
use libkatherine.Acq.{Acq}
use libkatherine.Acq.Decode.{Kind, kind, word_at, handle_kind, handle_measurement_data, decode_loop}
use libkatherine.Acq.Delivery.{handle_all}

-- The `n` data from byte `i` of the buffer on.
abbrev pub words_in : List ℕ → ℕ → ℕ → List ℕ
words_in buffer i zero = []
words_in buffer i (suc n) = word_at buffer i ∷ words_in buffer (i + 6) n

module _ (pixel_map : ℕ → ℕ → Pixel) where
  same_md_buffer :
      (k : Kind) (now md : ℕ) (acq : Acq)
      → (handle_kind pixel_map k now md acq).md_buffer ≡ acq.md_buffer
  unfolding handle_kind
  same_md_buffer Kind.pixel now md acq = ground arith
  same_md_buffer k now md acq = ground arith

  words_more :
      (buffer : List ℕ) (i received : ℕ)
      → i + 6 ≤ received
      → words_in buffer i ((received - i) / 6)
        ≡ word_at buffer i ∷ words_in buffer (i + 6) ((received - (i + 6)) / 6)
  words_more buffer i received h =
      let e : (received - i) / 6 ≡ suc ((received - (i + 6)) / 6) = omega arith in rw e

  words_done :
      (buffer : List ℕ) (i received : ℕ)
      → received < i + 6
      → words_in buffer i ((received - i) / 6) ≡ []
  words_done buffer i received h = let e : (received - i) / 6 ≡ zero = omega arith in rw e

  decode_from :
      (fuel now i received : ℕ) (acq : Acq)
      → received < i + 6 * fuel
      → decode_loop pixel_map fuel now i received acq
        ≡ handle_all pixel_map now (words_in acq.md_buffer i ((received - i) / 6)) acq
  unfolding decode_loop handle_all handle_measurement_data
  decode_from zero now i received acq h = rw (words_done acq.md_buffer i received (omega arith))
  decode_from (suc fuel) now i received acq h = elim (Bool-cases (leb (i + 6) received)) [
    | inl e ↦
        rw (e, words_more acq.md_buffer i received (ground arith))
          (decode_from fuel now (i + 6) received
              (handle_kind pixel_map (kind (word_at acq.md_buffer i)) now (word_at acq.md_buffer i)
                acq)
              (omega arith)
            ∙ rw same_md_buffer)
    | inr e ↦ rw (e, words_done acq.md_buffer i received (ground arith))
  ]

  -- With fuel for one round per byte the loop ends by its test, having handled the `received / 6`
  -- whole data of the datagram in order: the bytes of a trailing fragment are not decoded.
  pub decode_loop_lem :
      (now received : ℕ) (acq : Acq)
      → decode_loop pixel_map (received + 1) now 0 received acq
        ≡ handle_all pixel_map now (words_in acq.md_buffer 0 (received / 6)) acq
  decode_loop_lem now received acq =
      rw sub-zero at (decode_from (received + 1) now 0 received acq (omega arith))
