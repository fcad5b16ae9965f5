-- ===== src/Emu/Configures.antt =====
-- `katherine_configure` of c/src/config.c, with the emulated readout of c/src/emu/emulator.c at the
-- other end of the link.
use libkatherine.Base.{ℕ, zero, suc, ◌+◌, ◌%◌, ◌<◌, ◌≤◌, ◌≡◌, refl, arith, ap, ap₂, ◌∙◌}
use libkatherine.Base.{List, ◌∷◌, ◌++◌, length, Bool, false, ltb, if◌then◌else◌, replicate}
use libkatherine.Base.{not, ◌&&◌}
use mathlib.Core.Path.{subst}
use libkatherine.Udp.{Udp, Incoming, ok}
use libkatherine.Session.Dialogue.{IsReady, replies, push}
use libkatherine.Session.Talk.{listed}
use libkatherine.Config.{Config, is_refused}
use libkatherine.Config.Asked.{IsAsked}
use libkatherine.Config.Configure.{configure}
use libkatherine.Config.Transcript.{transcript, configure-transcript}
use libkatherine.Emu.{Emu}
use libkatherine.Emu.Feed.{feed}
use libkatherine.Emu.Configured.{configured, feed-transcript}
use libkatherine.Emu.Answered.{pulses_answered, transcript-Acked}

-- The response in the slot `k` places behind the first, and all that wait.
abbrev pub slot_at : Emu → ℕ → List ℕ
slot_at emu k = (emu.crd ((emu.crd_head + k) % 256)).bytes

abbrev pub waiting : Emu → List (List ℕ)
waiting emu = listed 0 emu.crd_count (slot_at emu)

-- The same responses, and eight bytes where there is none.
abbrev whole_at : Emu → ℕ → List ℕ
whole_at emu k = if ltb k emu.crd_count then slot_at emu k else replicate 8 0

listed_below :
    (n i bound : ℕ) (f : ℕ → List ℕ)
    → i + n ≤ bound
    → listed i n f ≡ listed i n (λ k. if ltb k bound then f k else replicate 8 0)
listed_below zero i bound f h = refl
listed_below (suc n) i bound f h =
    let first : f i ≡ (if ltb i bound then f i else replicate 8 0) = ground arith in
    ap₂ (λ x xs. x ∷ xs) first (listed_below n (i + 1) bound f (omega arith))

length-whole_at :
    (emu : Emu) (k : ℕ)
    → ((j : ℕ) → j < emu.crd_count → length (slot_at emu j) ≡ 8)
    → length (whole_at emu k) ≡ 8
length-whole_at emu k whole = ground (arith, whole k)

-- A readout that is in no upload and has no response waiting, its ring index in range, at the end of
-- a link that loses nothing, and a ready control socket that gets, from its remote, what the readout
-- queues for the datagrams of `katherine_configure`: with test pulses that are not refused, a phase
-- and a frequency of the enumerations, and trigger channels of three bits, `katherine_configure`
-- succeeds, takes all the responses of the readout and nothing else, has sent exactly these
-- datagrams, and leaves each register of the readout with the value that the fields of the
-- configuration give it by their places.
pub configure-configured :
    (has_memory : ℕ → Bool) (config : Config) (emu : Emu) (rest : List Incoming) (u : Udp)
    → (config.test_pulse_config.enabled
        && not config.test_pulse_config.external
        && is_refused config.test_pulse_config)
      ≡ false
    → IsAsked config
    → emu.px_upload_active ≡ false
    → emu.crd_head < 256
    → emu.crd_count ≡ 0
    → IsReady u
    → u.inbox ≡ replies u.addr_remote (waiting (feed (transcript has_memory config) emu)) ++ rest
    → (configure has_memory config u ≡ (
      ok tt,
      record u { inbox = rest; sent = push u.addr_remote (transcript has_memory config) u.sent },
    ))
      × ((feed (transcript has_memory config) emu).regs ≡ configured config emu.regs)
configure-configured has_memory config emu rest u valid asked idle h empty ready e =
    let fed = feed (transcript has_memory config) emu in
    let n = 32 + pulses_answered config in
    let a = transcript-Acked has_memory config emu idle h (ground (arith, empty)) in
    let count : fed.crd_count ≡ n = omega (arith, a.counted, empty) in
    let whole = a.whole (λ k l. absurd (omega (arith, empty, l))) in
    let same : waiting fed ≡ listed 0 n (whole_at fed) =
      listed_below fed.crd_count 0 fed.crd_count (slot_at fed) (omega arith)
      ∙ ap (λ k. listed 0 k (whole_at fed)) count in
    let arrives = subst (λ xs. u.inbox ≡ replies u.addr_remote xs ++ rest) same e in
    (
      configure-transcript has_memory config (whole_at fed) rest u valid
          (λ k. length-whole_at fed k whole) ready arrives,
      (feed-transcript has_memory config emu asked idle).0,
    )
