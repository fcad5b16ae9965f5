-- ===== src/Emu/Answered.antt =====
-- `katherine_configure` of c/src/config.c, answered by the emulated readout of c/src/emu/emulator.c.
use libkatherine.Base.{ℕ, zero, suc, ◌+◌, ◌*◌, ◌<◌, ◌≤◌, ◌≡◌, refl, arith, sym}
use libkatherine.Base.{List, [], ◌∷◌, ◌++◌, false, true, Bool, u8, if◌then◌else◌}
use mathlib.Core.Path.{subst}
use libkatherine.Command.{cmd6_bytes, cmd60_bytes, cmd64_i64_bytes}
use libkatherine.Command.CmdType
use libkatherine.Command.HwCmdType
use libkatherine.PxConfig.{Words}
use libkatherine.Config.{Config, TestPulseConfig, test_pulse_bytes}
use libkatherine.Config.Script.{upload_script, chunk_script, dac_script}
use libkatherine.Config.Transcript.{transcript}
use libkatherine.Emu.{Emu}
use libkatherine.Emu.Respond.{queue_ack, log_cmd, response}
use libkatherine.Emu.Feed.{feed}
use libkatherine.Emu.Parts.{more_words, last_words, upload_begun}
use libkatherine.Emu.Acked.{
  Acked, Answers, Answers-append, queue_crd-Acked, Answers-acq_time_lsb, Answers-acq_time_msb,
  Answers-bias, Answers-no_frames, Answers-acq_setup, Answers-hw_command, Answers-test_pulses,
  Answers-dac, Answers-register,
}

-- The datagrams of the matrix are answered once, by the last of them.
chunks-Acked :
    (words : Words) (left i : ℕ) (emu : Emu)
    → emu.px_upload_active ≡ true
    → emu.px_upload_words ≡ 256 * suc left
    → emu.crd_head < 256
    → emu.crd_count + 1 ≤ 256
    → Acked 1 emu.crd_count emu.crd_head emu.crd (feed (chunk_script (suc left) i words) emu)
unfolding feed queue_ack
chunks-Acked words zero i emu active waits h room =
    let done = record emu { px_upload_words = 0; px_upload_active = false } in
    subst (Acked 1 emu.crd_count emu.crd_head emu.crd)
      (sym (last_words words i emu active (omega (arith, waits))))
      (queue_crd-Acked (response CmdType.set_all_pixel_config 0 0) 0 done refl refl h room)
chunks-Acked words (suc left) i emu active waits h room =
    let next = record emu { px_upload_words = 256 * suc left } in
    subst
      (λ e.
        Acked 1 emu.crd_count emu.crd_head emu.crd (feed (chunk_script (suc left) (i + 1) words) e))
      (sym (more_words words i left emu active waits))
      (chunks-Acked words left (i + 1) next active refl h room)

Answers-upload : (words : Words) → Answers 1 (upload_script words)
unfolding feed log_cmd
Answers-upload words emu idle h room =
    let bytes = cmd6_bytes CmdType.set_all_pixel_config in
    let begun = record (log_cmd bytes emu) {
      px_upload_active = true;
      px_upload_words = 16384;
      px_upload_chip = 0;
    } in
    subst (λ e. Acked 1 emu.crd_count emu.crd_head emu.crd (feed (chunk_script 64 0 words) e))
      (sym (upload_begun emu idle)) (chunks-Acked words 63 0 begun refl refl h room)

Answers-cons :
    (n : ℕ) (bytes : List ℕ) (xs : List (List ℕ))
    → Answers 1 (bytes ∷ [])
    → Answers n xs
    → Answers (1 + n) (bytes ∷ xs)
Answers-cons n bytes xs f g = Answers-append 1 n (bytes ∷ []) xs f g

Answers-count : (m n : ℕ) (xs : List (List ℕ)) → m ≡ n → Answers m xs → Answers n xs
Answers-count m n xs e = subst (λ k. Answers k xs) e

Answers-none : Answers 0 []
unfolding feed
Answers-none emu idle h room = record {
  counted = omega arith;
  first = refl;
  idle = idle;
  whole = λ w. w;
}

Answers-hw :
    (hw n : ℕ) (xs : List (List ℕ))
    → Answers n xs
    → Answers (1 + n) (cmd60_bytes CmdType.hw_command_start hw ∷ xs)
unfolding cmd60_bytes
Answers-hw hw n xs =
    Answers-cons n (cmd60_bytes CmdType.hw_command_start hw) xs (Answers-hw_command (u8 hw) 0 0 0 0)

Answers-dac_script :
    (left i : ℕ) (array : ℕ → ℕ) → i + left ≤ 18 → Answers left (dac_script left i array)
unfolding cmd64_i64_bytes
Answers-dac_script zero i array h = Answers-none
Answers-dac_script (suc left) i array h =
    Answers-count (1 + left) (suc left) (dac_script (suc left) i array) (omega arith) (
      Answers-cons left (cmd64_i64_bytes CmdType.internal_dac_settings i (array i))
        (dac_script left (i + 1) array) (Answers-dac _ _ _ _ (u8 i) (omega arith))
        (Answers-dac_script left (i + 1) array (omega arith)))

Answers-if :
    (b : Bool) (xs ys : List ℕ)
    → Answers 1 (xs ∷ [])
    → Answers 1 (ys ∷ [])
    → Answers 1 ((if b then xs else ys) ∷ [])
Answers-if true xs ys f g = f
Answers-if false xs ys f g = g

Answers-pulses : (tp : TestPulseConfig) → Answers 1 (test_pulse_bytes tp ∷ [])
unfolding test_pulse_bytes
Answers-pulses tp =
    Answers-if tp.enabled _ _
      (Answers-if tp.external _ _ (Answers-test_pulses _ _ _ _ _) (Answers-test_pulses _ _ _ _ _))
      (Answers-test_pulses _ _ _ _ _)

Answers-last :
    (b : Bool) (tp : TestPulseConfig)
    → Answers (if b then 1 else 0) (if b then test_pulse_bytes tp ∷ [] else [])
Answers-last true tp = Answers-pulses tp
Answers-last false tp = Answers-none

-- The datagrams behind the registers: three updates, the DACs and their update, and the test pulses.
abbrev ends_of : Config → List (List ℕ)
ends_of config =
    cmd60_bytes CmdType.hw_command_start HwCmdType.output_block_config_update
      ∷ cmd60_bytes CmdType.hw_command_start HwCmdType.sensor_config_registers_update
      ∷ cmd60_bytes CmdType.hw_command_start HwCmdType.timer_set
      ∷ (dac_script 18 0 config.dacs
          ++ (cmd60_bytes CmdType.hw_command_start HwCmdType.internal_dac_update ∷ []))
    ++ (if config.test_pulse_config.enabled
        then test_pulse_bytes config.test_pulse_config ∷ []
        else [])

abbrev pub pulses_answered : Config → ℕ
pulses_answered config = if config.test_pulse_config.enabled then 1 else 0

Answers-ends_of : (config : Config) → Answers (22 + pulses_answered config) (ends_of config)
Answers-ends_of config =
    let tp = config.test_pulse_config in
    let b = pulses_answered config in
    let all : 18 ≤ 18 = omega arith in
    let total : 1 + (1 + (1 + (19 + b))) ≡ 22 + b = omega arith in
    let dacs =
      Answers-append 18 1 (dac_script 18 0 config.dacs) _ (Answers-dac_script 18 0 config.dacs all)
        (Answers-hw HwCmdType.internal_dac_update 0 [] Answers-none) in
    let timer =
      Answers-hw HwCmdType.timer_set _ _
        (Answers-append 19 b _ _ dacs (Answers-last tp.enabled tp)) in
    let sensor = Answers-hw HwCmdType.sensor_config_registers_update _ _ timer in
    Answers-count _ _ (ends_of config) total
      (Answers-hw HwCmdType.output_block_config_update _ _ sensor)

-- What `katherine_configure` sends, taken by an emulated readout that is in no upload and has room for
-- the responses: it queues exactly as many of them as `katherine_configure` takes, 32, or 33 with test
-- pulses, behind those that waited, and if those have eight bytes each, all that wait then do.
pub transcript-Acked :
    (has_memory : ℕ → Bool) (config : Config) (emu : Emu)
    → emu.px_upload_active ≡ false
    → emu.crd_head < 256
    → emu.crd_count + (32 + pulses_answered config) ≤ 256
    → Acked
        (32 + pulses_answered config)
        emu.crd_count
        emu.crd_head
        emu.crd
        (feed (transcript has_memory config) emu)
unfolding cmd64_i64_bytes
transcript-Acked has_memory config =
    let b = pulses_answered config in
    let three : 3 < 12 = omega arith in
    let four : 4 < 12 = omega arith in
    let total : 3 + (1 + (1 + (1 + (1 + (1 + (1 + (1 + (22 + b)))))))) ≡ 32 + b = omega arith in
    let pll = Answers-cons _ _ _ (Answers-register _ _ _ _ 3 three) (Answers-ends_of config) in
    let general = Answers-cons _ _ _ (Answers-register _ _ _ _ 4 four) pll in
    let setup = Answers-cons _ _ _ (Answers-acq_setup _ _ 0 0 5) general in
    let bias = Answers-cons _ _ _ (Answers-bias _ _ _ _ 0) setup in
    let frames = Answers-cons _ _ _ (Answers-no_frames _ _ _ _ 0) bias in
    let high = Answers-cons _ _ _ (Answers-acq_time_msb _ _ _ _ 0) frames in
    let low = Answers-cons _ _ _ (Answers-acq_time_lsb _ _ _ _ 0) high in
    let two =
      Answers-hw HwCmdType.reset_matrix_sequential _ _
        (Answers-hw HwCmdType.load_pixel_register_configuration 0 [] Answers-none) in
    let upload =
      Answers-append 1 2 (upload_script config.pixel_config) _ (Answers-upload config.pixel_config)
        two in
    Answers-count _ _ (transcript has_memory config) total (Answers-append 3 _ _ _ upload low)
