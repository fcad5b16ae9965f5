-- ===== src/Status/Answers.antt =====
-- The queries of c/src/status.c, answered by the emulated readout of c/src/emu/emulator.c.
use libkatherine.Base.{ℕ, ◌+◌, ◌*◌, ◌/◌, ◌%◌, ◌^◌, ◌<◌, ◌≤◌, ◌≡◌, refl, ◌∙◌, ap, sym, arith}
use libkatherine.Base.{List, [], ◌∷◌, ◌++◌, length, Bool, true, le_word, le_bytes, min}
use libkatherine.Base.{if◌then◌else◌, ltb}
use libkatherine.Udp.{Udp, Incoming, datagram, ok}
use libkatherine.Bitfield.{Field, IsField, extract}
use libkatherine.Bitfield.Many.{extract-inserts, inserts, reads, clear}
use libkatherine.Bitfield.Arith.{extract_arith}
use libkatherine.Bitfield.Laws.{low_field}
use libkatherine.Crd
use libkatherine.Command.{cmd6, cmd6_bytes}
use libkatherine.Command.CmdType
use libkatherine.Session.{◌>>=◌, ◌>>◌, pure, locked, cmd, wait_ack_crd}
use libkatherine.Session.Dialogue.{
  IsReady, Does, Does-bind, Does-cmd, Does-wait_ack_crd, Does-locked,
}
use libkatherine.Status.{ReadoutStatus, readout_status, comm_status, get_readout_status}
use libkatherine.Emu.{Profile}
use libkatherine.Emu.Respond.{readout_status_bytes, comm_status_bytes}

Does-pure : {A : Type 0} (a : A) → Does (pure a) [] [] a
Does-pure a u rest ready e = ap (λ inbox. (ok a, record u { inbox = inbox })) e

-- One command and one response, under the mutex.
pub Does-query :
    {A : Type 0} (bytes answer : List ℕ) (f : List ℕ → A)
    → length answer ≡ 8
    → Does
        (locked (cmd bytes >> (wait_ack_crd >>= λ crd. pure (f crd))))
        (bytes ∷ [])
        (answer ∷ [])
        (f answer)
Does-query bytes answer f h =
    let rest = wait_ack_crd >>= λ crd. pure (f crd) in
    Does-locked (cmd bytes >> rest) (bytes ∷ []) (answer ∷ []) (f answer) (
      Does-bind (cmd bytes) (λ _. rest) (bytes ∷ []) [] [] (answer ∷ []) tt (f answer)
        (Does-cmd bytes)
        (Does-bind wait_ack_crd (λ crd. pure (f crd)) [] [] (answer ∷ []) [] answer (f answer)
          (Does-wait_ack_crd answer h) (Does-pure (f answer))))

-- A field below the bytes that are not those of the value.
front_48 :
    (value code : ℕ) → le_word (le_bytes 6 value ++ (code ∷ 0 ∷ [])) % 2 ^ 48 ≡ value % 2 ^ 48
front_48 value code = omega arith

front_24 :
    (value a b c d e : ℕ)
    → le_word (le_bytes 3 value ++ (a ∷ b ∷ c ∷ d ∷ e ∷ [])) % 2 ^ 24 ≡ value % 2 ^ 24
front_24 value a b c d e = omega arith

-- A field below bit `k` does not see what stands above.
extract_below :
    (k v w : ℕ) (f : Field)
    → IsField f
    → f.start + f.width ≤ k
    → v % 2 ^ k ≡ w % 2 ^ k
    → extract v f ≡ extract w f
extract_below k v w f field h e =
    extract_arith v f field
    ∙ low_field f.start f.width k v h
    ∙ ap (λ t. t / 2 ^ f.start % 2 ^ f.width) e
    ∙ sym (low_field f.start f.width k w h)
    ∙ sym (extract_arith w f field)

-- What the status of a profile puts on the wire.
abbrev status_sets : Profile → List (Field × ℕ)
status_sets profile =
    (Crd.hw_type, profile.hw_type)
    ∷ (Crd.hw_revision, profile.hw_revision)
    ∷ (Crd.hw_serial_number, profile.serial)
    ∷ (Crd.fw_version, profile.fw_version)
    ∷ []

status_read :
    (profile : Profile) (f : Field)
    → IsField f
    → f.start + f.width ≤ 48
    → clear (status_sets profile) f ≡ true
    → extract (le_word (readout_status_bytes profile)) f
      ≡ reads (extract 0 f) (status_sets profile) f
unfolding readout_status_bytes
status_read profile f field h c =
    extract_below 48 (le_word (readout_status_bytes profile)) (inserts 0 (status_sets profile)) f
      field h (front_48 (inserts 0 (status_sets profile)) 0x17)
    ∙ extract-inserts 0 (status_sets profile) f c field (omega arith)

pub record IsProfile (profile : Profile) : Type 0 where
  pub hw_type_lt : profile.hw_type < 2 ^ 8
  pub hw_revision_lt : profile.hw_revision < 2 ^ 8
  pub serial_lt : profile.serial < 2 ^ 16
  pub fw_version_lt : profile.fw_version < 2 ^ 16

abbrev pub reported : Profile → ReadoutStatus
reported profile = record {
  hw_type = profile.hw_type;
  hw_revision = profile.hw_revision;
  hw_serial_number = profile.serial;
  fw_version = profile.fw_version;
}

readout_status-bytes :
    (profile : Profile)
    → IsProfile profile
    → readout_status (readout_status_bytes profile) ≡ reported profile
unfolding readout_status
readout_status-bytes profile h = ground (
  arith,
  status_read profile Crd.hw_type (omega arith) (omega arith) refl,
  status_read profile Crd.hw_revision (omega arith) (omega arith) refl,
  status_read profile Crd.hw_serial_number (omega arith) (omega arith) refl,
  status_read profile Crd.fw_version (omega arith) (omega arith) refl,
)

length-status_bytes : (profile : Profile) → length (readout_status_bytes profile) ≡ 8
unfolding readout_status_bytes
length-status_bytes profile = refl

-- On a pinned control socket over a link that takes every datagram, with a mutex that can be had,
-- where the emulated readout of a profile has put its response to the status query: the query sends
-- its command, takes the response, and returns the fields of the profile.
pub get_readout_status-emulated :
    (profile : Profile) (rest : List Incoming) (u : Udp)
    → IsProfile profile
    → IsReady u
    → u.inbox ≡ datagram u.addr_remote (readout_status_bytes profile) ∷ rest
    → get_readout_status u ≡ (
      ok (reported profile),
      record u {
        inbox = rest;
        sent = (u.addr_remote, cmd6_bytes CmdType.get_readout_status) ∷ u.sent;
      },
    )
unfolding get_readout_status cmd6
get_readout_status-emulated profile rest u h ready e =
    Does-query (cmd6_bytes CmdType.get_readout_status) (readout_status_bytes profile) readout_status
      (length-status_bytes profile) u rest ready e
    ∙ ap
        (λ status. (
          ok status,
          record u {
            inbox = rest;
            sent = (u.addr_remote, cmd6_bytes CmdType.get_readout_status) ∷ u.sent;
          },
        ))
        (readout_status-bytes profile h)

abbrev comm_sets : ℕ → List (Field × ℕ)
comm_sets rate =
    (Crd.comm_lines_mask, 0xFF) ∷ (Crd.total_data_rate, rate) ∷ (Crd.chip_detected_flag, 1) ∷ []

abbrev line_rate : ℕ → ℕ
line_rate rate = if ltb 0xFF (rate / 5) then 0xFF else rate / 5

comm_read :
    (rate : ℕ) (armed : Bool) (f : Field)
    → IsField f
    → f.start + f.width ≤ 24
    → clear (comm_sets (line_rate rate)) f ≡ true
    → extract (le_word (comm_status_bytes rate armed)) f
      ≡ reads (extract 0 f) (comm_sets (line_rate rate)) f
unfolding comm_status_bytes
comm_read rate armed f field h c =
    let sets = comm_sets (line_rate rate) in
    extract_below 24 (le_word (comm_status_bytes rate armed)) (inserts 0 sets) f field h
      (front_24 (inserts 0 sets) (if armed then 1 else 0) 0 0 0x18 0)
    ∙ extract-inserts 0 sets f c field (omega arith)

-- The communication status that the emulated readout sends: all lines up, a chip, and the shaping
-- rate rounded down to a multiple of five, cut at 1275.
pub comm_status-emulated :
    (shape_bytes_per_s : ℕ) (armed : Bool)
    → comm_status (comm_status_bytes shape_bytes_per_s armed) ≡ record {
      comm_lines_mask = 0xFF;
      data_rate = 5 * min (shape_bytes_per_s / 5) 255;
      chip_detected = true;
    }
unfolding comm_status
comm_status-emulated rate armed = ground (
  arith,
  comm_read rate armed Crd.comm_lines_mask (omega arith) (omega arith) refl,
  comm_read rate armed Crd.total_data_rate (omega arith) (omega arith) refl,
  comm_read rate armed Crd.chip_detected_flag (omega arith) (omega arith) refl,
)
