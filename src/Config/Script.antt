-- ===== src/Config/Script.antt =====
-- What the configuration of c/src/config.c says to a readout that acknowledges every command: the
-- datagrams of `katherine_configure`, in their order.
use libkatherine.Base.{ℕ, zero, suc, ◌+◌, ◌≡◌, refl, Bool, false, List, [], ◌∷◌, ◌++◌, not, ◌&&◌}
use libkatherine.Base.{bit_and, ◌>>>◌, if◌then◌else◌}
use libkatherine.Udp.{Result, ok}
use libkatherine.Session.Dialogue.{IsReady}
use libkatherine.Base.{arith, sym, einval}
use mathlib.Core.Path.{transport}
use libkatherine.Session.{Session, ◌>>◌, fail, locked, cmd, wait_ack, wait_ack_retry}
use libkatherine.Session.Talk.{
  Talks, Talks-count, Talks-pure, Talks-bind, Talks-cmd, Talks-wait_ack,
}
use libkatherine.Session.Talk.{Talks-locked, Talks-wait_ack_retry}
use libkatherine.Command.{cmd6, cmd60, cmd64_i64, cmd6_i64}
use libkatherine.Command.{cmd6_bytes, cmd60_bytes, cmd64_i64_bytes}
use libkatherine.Command.CmdType
use libkatherine.Command.HwCmdType
use libkatherine.PxConfig.{Words}
use libkatherine.Config.{
  TestPulseConfig, acknowledged, set_acq_time, set_dacs, set_test_pulses, hw_command, dacs_loop,
  is_refused, test_pulse_bytes,
}
use libkatherine.Config.Upload.{set_all_pixel_config, attempt_loop, upload, send_chunks, chunk}

Talks-acknowledged :
    (command : Session) (bytes : List ℕ)
    → Talks command (bytes ∷ []) 0
    → Talks (acknowledged command) (bytes ∷ []) 1
unfolding acknowledged
Talks-acknowledged command bytes t =
    Talks-bind command wait_ack (bytes ∷ []) [] 0 1 t Talks-wait_ack

abbrev pub hw_bytes : ℕ → List ℕ
hw_bytes hw = cmd60_bytes CmdType.hw_command_start hw

pub Talks-hw_command : (hw : ℕ) → Talks (hw_command hw) (hw_bytes hw ∷ []) 1
unfolding hw_command cmd60
Talks-hw_command hw = Talks-acknowledged (cmd (hw_bytes hw)) (hw_bytes hw) (Talks-cmd (hw_bytes hw))

-- A command alone, under the mutex and acknowledged.
pub Talks-exchange : (bytes : List ℕ) → Talks (locked (acknowledged (cmd bytes))) (bytes ∷ []) 1
Talks-exchange bytes =
    Talks-locked (acknowledged (cmd bytes)) (bytes ∷ []) 1
      (Talks-acknowledged (cmd bytes) bytes (Talks-cmd bytes))

abbrev pub dac_script : ℕ → ℕ → (ℕ → ℕ) → List (List ℕ)
dac_script zero i array = []
dac_script (suc left) i array =
    cmd64_i64_bytes CmdType.internal_dac_settings i (array i) ∷ dac_script left (i + 1) array

Talks-dacs_loop :
    (left i : ℕ) (array : ℕ → ℕ) → Talks (dacs_loop left i array) (dac_script left i array) left
unfolding dacs_loop cmd64_i64
Talks-dacs_loop zero i array = Talks-pure
Talks-dacs_loop (suc left) i array =
    let bytes = cmd64_i64_bytes CmdType.internal_dac_settings i (array i) in
    let a = acknowledged (cmd bytes) in
    let b = dacs_loop left (i + 1) array in
    let script = dac_script left (i + 1) array in
    let e : 1 + left ≡ suc left = omega arith in
    Talks-count (a >> b) (bytes ∷ script) (1 + left) (suc left) e (
      Talks-bind a b (bytes ∷ []) script 1 left
        (Talks-acknowledged (cmd bytes) bytes (Talks-cmd bytes))
        (Talks-dacs_loop left (i + 1) array))

-- All eighteen DACs are set, in order, and then the update is commanded.
pub Talks-set_dacs :
    (array : ℕ → ℕ)
    → Talks
        (set_dacs array)
        (dac_script 18 0 array ++ (hw_bytes HwCmdType.internal_dac_update ∷ []))
        19
unfolding set_dacs
Talks-set_dacs array =
    let script = dac_script 18 0 array in
    let update = hw_command HwCmdType.internal_dac_update in
    let last = hw_bytes HwCmdType.internal_dac_update ∷ [] in
    Talks-locked (dacs_loop 18 0 array >> update) (script ++ last) 19 (
      Talks-bind (dacs_loop 18 0 array) update script last 18 1 (Talks-dacs_loop 18 0 array)
        (Talks-hw_command HwCmdType.internal_dac_update))

abbrev pub chunk_script : ℕ → ℕ → Words → List (List ℕ)
chunk_script zero i words = []
chunk_script (suc left) i words = chunk words i ∷ chunk_script left (i + 1) words

Talks-send_chunks :
    (left i : ℕ) (words : Words) → Talks (send_chunks left i words) (chunk_script left i words) 0
unfolding send_chunks
Talks-send_chunks zero i words = Talks-pure
Talks-send_chunks (suc left) i words =
    Talks-bind (cmd (chunk words i)) (send_chunks left (i + 1) words) (chunk words i ∷ [])
      (chunk_script left (i + 1) words) 0 0 (Talks-cmd (chunk words i))
      (Talks-send_chunks left (i + 1) words)

Talks-upload : (words : Words) → Talks (upload words) (chunk_script 64 0 words) 1
unfolding upload
Talks-upload words =
    let script = chunk_script 64 0 words in
    Talks-bind (send_chunks 64 0 words) (wait_ack_retry 10) script [] 0 1
      (Talks-send_chunks 64 0 words) (Talks-wait_ack_retry 9)

abbrev pub upload_script : Words → List (List ℕ)
upload_script words = cmd6_bytes CmdType.set_all_pixel_config ∷ chunk_script 64 0 words

-- Over a link that answers, the first attempt succeeds.
Talks-attempt_loop :
    (has_memory : ℕ → Bool) (words : Words) (left : ℕ) (last : Result (Unit {0}))
    → Talks (attempt_loop has_memory words (suc left) last) (upload_script words) 1
unfolding attempt_loop cmd6
Talks-attempt_loop has_memory words left last i acks h u rest ready e =
    let first = cmd6_bytes CmdType.set_all_pixel_config in
    let u₁ = record u { sent = (u.addr_remote, first) ∷ u.sent } in
    let ready₁ : IsReady u₁ = record {
      pinned = ready.pinned;
      takes = ready.takes;
      free = ready.free;
    } in
    ground (
      arith,
      Talks-cmd first i acks h u u.inbox ready refl,
      Talks-upload words i acks h u₁ rest ready₁ e,
    )

-- One operation of a configuration: what it says, and how many answers it takes.
pub record Line : Type 0 where
  pub session : Session
  pub says : List (List ℕ)
  pub answers : ℕ
  pub talks : Talks session says answers

abbrev pub run : List Line → Session → Session
run [] last = last
run (l ∷ ls) last = l.session >> run ls last

abbrev pub said : List Line → List (List ℕ) → List (List ℕ)
said [] last = last
said (l ∷ ls) last = l.says ++ said ls last

abbrev pub answered : List Line → ℕ → ℕ
answered [] last = last
answered (l ∷ ls) last = l.answers + answered ls last

pub Talks-run :
    (ls : List Line) (last : Session) (sent : List (List ℕ)) (n : ℕ)
    → Talks last sent n
    → Talks (run ls last) (said ls sent) (answered ls n)
Talks-run [] last sent n t = t
Talks-run (l ∷ ls) last sent n t =
    Talks-bind l.session (run ls last) l.says (said ls sent) l.answers (answered ls n) l.talks
      (Talks-run ls last sent n t)

-- A command alone.
abbrev pub exchange : List ℕ → Line
exchange bytes = record {
  session = locked (acknowledged (cmd bytes));
  says = bytes ∷ [];
  answers = 1;
  talks = Talks-exchange bytes;
}

-- The upload over a link that answers: the command, the 64 datagrams of the matrix, and the two
-- hardware commands that load it.
pub Talks-set_all_pixel_config :
    (has_memory : ℕ → Bool) (words : Words)
    → Talks
        (set_all_pixel_config has_memory words)
        (upload_script words
          ++ (hw_bytes HwCmdType.reset_matrix_sequential
              ∷ hw_bytes HwCmdType.load_pixel_register_configuration
              ∷ []))
        3
unfolding set_all_pixel_config
Talks-set_all_pixel_config has_memory words =
    let a = attempt_loop has_memory words 10 (ok tt) in
    let b = hw_command HwCmdType.reset_matrix_sequential in
    let c = hw_command HwCmdType.load_pixel_register_configuration in
    let hb = hw_bytes HwCmdType.reset_matrix_sequential in
    let hc = hw_bytes HwCmdType.load_pixel_register_configuration in
    Talks-locked (a >> (b >> c)) (upload_script words ++ (hb ∷ hc ∷ [])) 3 (
      Talks-bind a (b >> c) (upload_script words) (hb ∷ hc ∷ []) 1 2
        (Talks-attempt_loop has_memory words 9 (ok tt))
        (Talks-bind b c (hb ∷ []) (hc ∷ []) 1 1 (Talks-hw_command HwCmdType.reset_matrix_sequential)
          (Talks-hw_command HwCmdType.load_pixel_register_configuration)))

-- The two halves of the acquisition time, the low one first.
pub Talks-set_acq_time :
    (acqt : ℕ)
    → Talks
        (set_acq_time acqt)
        (cmd64_i64_bytes CmdType.acquisition_time_lsb 0 (bit_and acqt 0x00000000FFFFFFFF)
          ∷ cmd64_i64_bytes CmdType.acquisition_time_msb 0 (bit_and acqt 0xFFFFFFFF00000000 >>> 32)
          ∷ [])
        2
unfolding set_acq_time cmd6_i64
Talks-set_acq_time acqt =
    let lsb = cmd64_i64_bytes CmdType.acquisition_time_lsb 0 (bit_and acqt 0x00000000FFFFFFFF) in
    let msb =
      cmd64_i64_bytes CmdType.acquisition_time_msb 0 (bit_and acqt 0xFFFFFFFF00000000 >>> 32) in
    Talks-locked (acknowledged (cmd lsb) >> acknowledged (cmd msb)) (lsb ∷ msb ∷ []) 2 (
      Talks-bind (acknowledged (cmd lsb)) (acknowledged (cmd msb)) (lsb ∷ []) (msb ∷ []) 1 1
        (Talks-acknowledged (cmd lsb) lsb (Talks-cmd lsb))
        (Talks-acknowledged (cmd msb) msb (Talks-cmd msb)))

-- Test pulses that are not refused are set by one command, however many times the wait for its
-- acknowledgement is repeated.
pub Talks-set_test_pulses :
    (tp : TestPulseConfig)
    → (tp.enabled && not tp.external && is_refused tp) ≡ false
    → Talks (set_test_pulses tp) (test_pulse_bytes tp ∷ []) 1
unfolding set_test_pulses
Talks-set_test_pulses tp e =
    let body = locked (cmd (test_pulse_bytes tp) >> wait_ack_retry 50) in
    let sent = test_pulse_bytes tp ∷ [] in
    transport (λ i. Talks (if sym e i then fail einval else body) sent 1)
      (Talks-locked (cmd (test_pulse_bytes tp) >> wait_ack_retry 50) sent 1 (
        Talks-bind (cmd (test_pulse_bytes tp)) (wait_ack_retry 50) sent [] 0 1
          (Talks-cmd (test_pulse_bytes tp)) (Talks-wait_ack_retry 49)))
