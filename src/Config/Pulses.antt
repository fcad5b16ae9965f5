-- ===== src/Config/Pulses.antt =====
-- `katherine_set_test_pulses` in c/src/config.c: what it refuses, and what it encodes.
use libkatherine.Base.{ℕ, ◌+◌, ◌*◌, ◌/◌, ◌^◌, ◌<◌, ◌≤◌, ◌≡◌, arith}
use libkatherine.Base.{true, false, List, get_or}
use libkatherine.Base.{einval}
use libkatherine.Bits.Split.{bit_and_mask}
use libkatherine.Base.{◌∷◌, length, Bool-cases, inl, inr}
use libkatherine.Udp.{Udp, Incoming, datagram, err, ok}
use libkatherine.Session.Dialogue.{IsReady}
use libkatherine.Config.Script.{Talks-set_test_pulses}
use libkatherine.Config.{TestPulseConfig, is_refused, set_test_pulses, test_pulse_bytes}

-- The ranges that the header documents for the internal pulse generator.
pub record InRange (tp : TestPulseConfig) : Type 0 where
  pub count_positive : 1 ≤ tp.count
  pub period_low : 65 ≤ tp.period
  pub period_high : tp.period ≤ 16321
  pub phase_high : tp.phase ≤ 15

is_refused-InRange : (tp : TestPulseConfig) → InRange tp → is_refused tp ≡ false
unfolding is_refused
is_refused-InRange tp h = ground arith

in_range : (tp : TestPulseConfig) → is_refused tp ≡ false → InRange tp
unfolding is_refused
in_range tp h = record {
  count_positive = ground arith;
  period_low = ground arith;
  period_high = ground arith;
  phase_high = ground arith;
}

refused_outside : (tp : TestPulseConfig) → ¬ InRange tp → is_refused tp ≡ true
refused_outside tp h = elim (Bool-cases (is_refused tp)) [
  | inl e ↦ e
  | inr e ↦ absurd (h (in_range tp e))
]

-- Enabled test pulses of the internal generator that are out of the documented ranges are refused
-- with EINVAL, and the session is untouched: nothing is sent, and no lock is taken.
pub set_test_pulses-refused :
    (tp : TestPulseConfig) (u : Udp)
    → tp.enabled ≡ true
    → tp.external ≡ false
    → ¬ InRange tp
    → set_test_pulses tp u ≡ (err einval, u)
unfolding set_test_pulses
set_test_pulses-refused tp u e x h = ground (arith, refused_outside tp h, e, x)

-- Enabled test pulses of the internal generator in the documented ranges are set by one datagram
-- and one acknowledgement, over a link that takes the datagram and a mutex that can be had.
pub set_test_pulses-accepted :
    (tp : TestPulseConfig) (ack : List ℕ) (rest : List Incoming) (u : Udp)
    → InRange tp
    → length ack ≡ 8
    → IsReady u
    → u.inbox ≡ datagram u.addr_remote ack ∷ rest
    → set_test_pulses tp u
      ≡ (ok tt, record u { inbox = rest; sent = (u.addr_remote, test_pulse_bytes tp) ∷ u.sent })
set_test_pulses-accepted tp ack rest u h whole ready e =
    Talks-set_test_pulses tp (ground (arith, is_refused-InRange tp h)) 0 (λ _. ack) (λ _. whole) u
      rest ready e

-- What the readout makes of the period byte.
abbrev pub applied_period : List ℕ → ℕ
applied_period bytes = 64 * get_or bytes 2 0 + 1

-- In the documented ranges, with a 16-bit count: the command carries the count and the phase as they
-- are, and the period rounded down to the nearest 64 k + 1, in a byte that it fits.
pub test_pulse_bytes_lem :
    (tp : TestPulseConfig)
    → tp.enabled ≡ true
    → tp.external ≡ false
    → InRange tp
    → tp.count < 2 ^ 16
    → (get_or (test_pulse_bytes tp) 0 0 + 2 ^ 8 * get_or (test_pulse_bytes tp) 1 0 ≡ tp.count)
      × (get_or (test_pulse_bytes tp) 3 0 ≡ tp.phase)
      × (applied_period (test_pulse_bytes tp) ≤ tp.period)
      × (tp.period < applied_period (test_pulse_bytes tp) + 64)
unfolding test_pulse_bytes
test_pulse_bytes_lem tp e x h c = (
  ground (arith, bit_and_mask 8 tp.count, bit_and_mask 8 (tp.count / 2 ^ 8)),
  ground arith,
  ground (arith, h.period_low, h.period_high),
  ground (arith, h.period_low, h.period_high),
)
