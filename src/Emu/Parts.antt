-- ===== src/Emu/Parts.antt =====
-- The parts of a configuration of c/src/config.c, taken by the emulated readout of
-- c/src/emu/emulator.c: the matrix, the triggers, the DACs and the test pulses.
use libkatherine.Base.{
  ℕ, zero, suc, ◌+◌, ◌-◌, ◌*◌, ◌/◌, ◌%◌, ◌^◌, ◌<◌, ◌≤◌, ◌≡◌, refl, arith, ap, sym, ◌∙◌,
}
use libkatherine.Base.{
  List, [], ◌∷◌, length, Bool, true, false, u8, u16, u32, get_or, ltb, leb, ◌&&◌,
}
use libkatherine.Base.{bit_and, bit_or, ◌<<◌, ◌>>>◌, if◌then◌else◌}
use mathlib.Core.Path.{subst}
use libkatherine.Command.{packet, cmd6_bytes, cmd64_i64_bytes}
use libkatherine.Command.CmdType
use libkatherine.PxConfig.{Words}
use libkatherine.Config.{TestPulseConfig, pulse_flags, test_pulse_bytes}
use libkatherine.Config.Upload.{chunk, chars}
use libkatherine.Config.Script.{upload_script, chunk_script, dac_script}
use libkatherine.Emu.{Emu, Regs, store}
use libkatherine.Emu.Respond.{queue_ack, log_cmd, consume_px_config, response}
use libkatherine.Emu.Commands.{run_query, run_cmd, handle_cmd, cmd_in}
use libkatherine.Emu.Prng.{load_le32}
use libkatherine.Emu.Feed.{feed, Sets, Sets-append, Sets-none, command}
use libkatherine.Emu.Registers.{Alike, queue_crd-Alike, log_cmd-Alike, Sets-bytes, Sets-dac}

length-chars : (words : Words) (start n : ℕ) → length (chars words start n) ≡ n
length-chars words start zero = refl
length-chars words start (suc n) = ap suc (length-chars words (start + 1) n)

-- A datagram of the matrix is 256 words of the upload.
pub more_words :
    (words : Words) (i left : ℕ) (emu : Emu)
    → emu.px_upload_active ≡ true
    → emu.px_upload_words ≡ 256 * suc (suc left)
    → (cmd_in (chunk words i) emu).1 ≡ record emu { px_upload_words = 256 * suc left }
unfolding cmd_in consume_px_config
more_words words i left emu active waits = ground (arith, length-chars words (1024 * i) 1024)

pub last_words :
    (words : Words) (i : ℕ) (emu : Emu)
    → emu.px_upload_active ≡ true
    → emu.px_upload_words ≡ 256
    → (cmd_in (chunk words i) emu).1
      ≡ queue_ack CmdType.set_all_pixel_config 0
          (record emu { px_upload_words = 0; px_upload_active = false })
unfolding cmd_in consume_px_config
last_words words i emu active waits = ground (arith, length-chars words (1024 * i) 1024)

-- The datagrams of the matrix end the upload, and change no register.
chunks_taken :
    (words : Words) (left i : ℕ) (emu : Emu)
    → emu.px_upload_active ≡ true
    → emu.px_upload_words ≡ 256 * suc left
    → Alike (feed (chunk_script (suc left) i words) emu) (record emu { px_upload_active = false })
unfolding feed queue_ack
chunks_taken words zero i emu active waits =
    let done = record emu { px_upload_words = 0; px_upload_active = false } in
    subst (λ e. Alike e (record emu { px_upload_active = false }))
      (sym (last_words words i emu active (omega arith)))
      (let q = queue_crd-Alike (response CmdType.set_all_pixel_config 0 0) 0 done in
        record { regs = q.regs; active = q.active })
chunks_taken words (suc left) i emu active waits =
    let next = record emu { px_upload_words = 256 * suc left } in
    let rest = chunks_taken words left (i + 1) next active refl in
    subst
      (λ e.
        Alike (feed (chunk_script (suc left) (i + 1) words) e)
          (record emu { px_upload_active = false }))
      (sym (more_words words i left emu active waits))
      (record { regs = rest.regs; active = rest.active })

pub upload_begun :
    (emu : Emu)
    → emu.px_upload_active ≡ false
    → (cmd_in (cmd6_bytes CmdType.set_all_pixel_config) emu).1
      ≡ record (log_cmd (cmd6_bytes CmdType.set_all_pixel_config) emu) {
        px_upload_active = true;
        px_upload_words = 16384;
        px_upload_chip = 0;
      }
unfolding cmd_in handle_cmd run_cmd run_query cmd6_bytes
upload_begun emu idle = ground arith

pub Sets-upload : (words : Words) → Sets (upload_script words) (λ r. r)
unfolding feed
Sets-upload words emu idle =
    let bytes = cmd6_bytes CmdType.set_all_pixel_config in
    let begun = record (log_cmd bytes emu) {
      px_upload_active = true;
      px_upload_words = 16384;
      px_upload_chip = 0;
    } in
    let taken = chunks_taken words 63 0 begun refl refl in
    subst
      (λ e.
        ((feed (chunk_script 64 0 words) e).regs ≡ emu.regs)
        × ((feed (chunk_script 64 0 words) e).px_upload_active ≡ false))
      (sym (upload_begun emu idle)) (taken.regs ∙ (log_cmd-Alike bytes emu).regs, taken.active)

pub Sets-acquisition_setup :
    (a b : ℕ)
    → Sets (packet a b 0 0 5 CmdType.acquisition_setup ∷ []) (λ r. record r {
      acq_setup = store r.acq_setup 5 (load_le32 (packet a b 0 0 5 CmdType.acquisition_setup));
    })
unfolding handle_cmd run_cmd run_query queue_ack
Sets-acquisition_setup a b =
    let bytes = packet a b 0 0 5 CmdType.acquisition_setup in
    Sets-bytes bytes (response CmdType.acquisition_setup 0 0) 0
      (λ r. record r { acq_setup = store r.acq_setup 5 (load_le32 bytes) }) refl (λ emu. refl)

-- The test pulse registers, from the bytes of the command.
abbrev pub pulses_of : List ℕ → Regs → Regs
pulses_of bytes r = record r {
  tp_count = u16 (bit_or (get_or bytes 0 0) (get_or bytes 1 0 << 8));
  tp_period_code = get_or bytes 2 0;
  tp_phase = get_or bytes 3 0;
  tp_flags = get_or bytes 4 0;
}

Sets-pulses :
    (a b c d e : ℕ)
    → let bytes = packet a b c d e CmdType.test_pulse_setting in Sets (bytes ∷ []) (pulses_of bytes)
unfolding handle_cmd run_cmd run_query queue_ack
Sets-pulses a b c d e =
    let bytes = packet a b c d e CmdType.test_pulse_setting in
    Sets-bytes bytes (response CmdType.test_pulse_setting 0 0) 1000000000 (pulses_of bytes) refl
      (λ emu. refl)

-- The DAC registers after the commands for `left` DACs from `i` on.
abbrev dacs_from : ℕ → ℕ → (ℕ → ℕ) → (ℕ → ℕ) → ℕ → ℕ
dacs_from zero i array dac = dac
dacs_from (suc left) i array dac = dacs_from left (i + 1) array (store dac i (u16 (array i)))

dacs_from_lem :
    (left i : ℕ) (array dac : ℕ → ℕ) (j : ℕ)
    → dacs_from left i array dac j ≡ (if leb i j && ltb j (i + left) then u16 (array j) else dac j)
dacs_from_lem zero i array dac j = ground arith
dacs_from_lem (suc left) i array dac j =
    ground (arith, dacs_from_lem left (i + 1) array (store dac i (u16 (array i))) j)

Sets-dac_at :
    (i value : ℕ)
    → i < 18
    → Sets
        (cmd64_i64_bytes CmdType.internal_dac_settings i value ∷ [])
        (λ r. record r { dac = store r.dac i (u16 value) })
unfolding cmd64_i64_bytes
Sets-dac_at i value h =
    let at : u8 i ≡ i = omega arith in
    let low : u16 (u32 value % 2 ^ 32) ≡ u16 value = omega arith in
    let sets = Sets-dac (u8 i) (u32 value) (omega arith) in
    subst
      (λ v.
        Sets (command CmdType.internal_dac_settings (u8 i) (u32 value) ∷ [])
          (λ r. record r { dac = store r.dac i v }))
      low
      (subst
        (λ k.
          Sets (command CmdType.internal_dac_settings (u8 i) (u32 value) ∷ [])
            (λ r. record r { dac = store r.dac k (u16 (u32 value % 2 ^ 32)) }))
        at sets)

Sets-dac_script :
    (left i : ℕ) (array : ℕ → ℕ)
    → i + left ≤ 18
    → Sets (dac_script left i array) (λ r. record r { dac = dacs_from left i array r.dac })
Sets-dac_script zero i array h = Sets-none
Sets-dac_script (suc left) i array h =
    Sets-append (cmd64_i64_bytes CmdType.internal_dac_settings i (array i) ∷ [])
      (dac_script left (i + 1) array) (λ r. record r { dac = store r.dac i (u16 (array i)) })
      (λ r. record r { dac = dacs_from left (i + 1) array r.dac })
      (Sets-dac_at i (array i) (omega arith)) (Sets-dac_script left (i + 1) array (omega arith))

-- All eighteen DACs.
abbrev pub dacs_set : (ℕ → ℕ) → (ℕ → ℕ) → ℕ → ℕ
dacs_set array dac j = if ltb j 18 then u16 (array j) else dac j

pub Sets-dacs :
    (array : ℕ → ℕ) → Sets (dac_script 18 0 array) (λ r. record r { dac = dacs_set array r.dac })
Sets-dacs array =
    let e : (dac : ℕ → ℕ) (j : ℕ) → dacs_from 18 0 array dac j ≡ dacs_set array dac j =
      λ dac j. ground (arith, dacs_from_lem 18 0 array dac j) in
    subst {A = (ℕ → ℕ) → ℕ → ℕ}
      (λ f. Sets (dac_script 18 0 array) (λ r. record r { dac = f r.dac })) (λ i dac j. e dac j i)
      (Sets-dac_script 18 0 array (omega arith))

Sets-if :
    (b : Bool) (xs ys : List ℕ)
    → Sets (xs ∷ []) (pulses_of xs)
    → Sets (ys ∷ []) (pulses_of ys)
    → Sets ((if b then xs else ys) ∷ []) (pulses_of (if b then xs else ys))
Sets-if true xs ys sx sy = sx
Sets-if false xs ys sx sy = sy

pub Sets-test_pulses :
    (tp : TestPulseConfig) → Sets (test_pulse_bytes tp ∷ []) (pulses_of (test_pulse_bytes tp))
unfolding test_pulse_bytes
Sets-test_pulses tp =
    let flags = pulse_flags tp in
    let low = bit_and tp.count 0xFF in
    let high = bit_and (tp.count >>> 8) 0xFF in
    let code = u8 ((tp.period - 1) / 64) in
    let external = packet 0 0 0 0 flags CmdType.test_pulse_setting in
    let internal = packet low high code tp.phase flags CmdType.test_pulse_setting in
    let off = packet 0 0 0 0 0 CmdType.test_pulse_setting in
    Sets-if tp.enabled (if tp.external then external else internal) off
      (Sets-if tp.external external internal (Sets-pulses 0 0 0 0 flags)
        (Sets-pulses low high code tp.phase flags))
      (Sets-pulses 0 0 0 0 0)
