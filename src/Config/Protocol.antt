-- ===== src/Config/Protocol.antt =====
-- The datagrams that tools/wireshark/katherine.lua documents for a configuration of c/src/config.c, by
-- the values of the configuration alone: opcodes, registers and hardware commands by their numbers,
-- words by their four bytes, the lowest first, and fields at their places.
use libkatherine.Base.{
  ℕ, zero, suc, ◌+◌, ◌-◌, ◌*◌, ◌/◌, ◌%◌, ◌^◌, ◌<◌, ◌≡◌, refl, arith, ap, ap₂, ◌∙◌,
}
use libkatherine.Base.{List, [], ◌∷◌, ◌++◌, Bool, true, false, not, ◌&&◌, length, u8, u32, bit_and}
use libkatherine.Base.{if◌then◌else◌, ◌>>>◌}
use libkatherine.Bits.Split.{bit_and_mask}
use libkatherine.Bits.Cut.{bit_and-div}
use libkatherine.Udp.{Udp, Incoming, ok}
use libkatherine.Session.Dialogue.{IsReady, replies, push}
use libkatherine.Session.Talk.{listed}
use libkatherine.Command.{packet, cmd6_bytes, cmd60_bytes, cmd64_i64_bytes}
use libkatherine.PxConfig.{Words}
use libkatherine.Config.{Config, TestPulseConfig, is_refused, test_pulse_bytes, pll_setup}
use libkatherine.Command.{general_config_word}
use libkatherine.Config.Upload.{chars}
use libkatherine.Config.Script.{chunk_script, dac_script}
use libkatherine.Config.Configure.{configure}
use libkatherine.Config.Transcript.{transcript, configure-transcript}
use libkatherine.Config.Asked.{
  IsAsked, asked_pll, asked_general, asked_trigger, asked_flags, pll_setup-asked_pll,
  general_config_word-asked_general, trigger_byte-asked_trigger, pulse_flags-asked_flags,
}

-- A command with a word of 32 bits.
abbrev pub word_command : (opcode index value : ℕ) → List ℕ
word_command opcode index value =
    value % 256
    ∷ value / 256 % 256
    ∷ value / 65536 % 256
    ∷ value / 16777216 % 256
    ∷ index
    ∷ 0
    ∷ opcode
    ∷ 0
    ∷ []

-- A hardware command.
abbrev pub hw : ℕ → List ℕ
hw n = n ∷ 0 ∷ 0 ∷ 0 ∷ 0 ∷ 0 ∷ 0x07 ∷ 0 ∷ []

-- `count` bytes of the matrix from byte `n` on: four to a word, the lowest first.
abbrev pub matrix_bytes : Words → (n count : ℕ) → List ℕ
matrix_bytes words n zero = []
matrix_bytes words n (suc count) =
    words (n / 4) / 2 ^ (8 * (n % 4)) % 256 ∷ matrix_bytes words (n + 1) count

-- The matrix from its `i`-th kilobyte on.
abbrev pub kilobytes : Words → (left i : ℕ) → List (List ℕ)
kilobytes words zero i = []
kilobytes words (suc left) i = matrix_bytes words (1024 * i) 1024 ∷ kilobytes words left (i + 1)

abbrev pub dac_commands : (ℕ → ℕ) → (left i : ℕ) → List (List ℕ)
dac_commands dacs zero i = []
dac_commands dacs (suc left) i = word_command 0x04 i (dacs i) ∷ dac_commands dacs left (i + 1)

-- Test pulses of the internal generator carry their count in two bytes, their period as the `k` of
-- 64 k + 1, and their phase; those of an external source carry their flags alone.
abbrev pub pulse_command : TestPulseConfig → List ℕ
pulse_command tp =
    (if tp.external then 0 else tp.count % 256)
    ∷ (if tp.external then 0 else tp.count / 256 % 256)
    ∷ (if tp.external then 0 else (tp.period - 1) / 64 % 256)
    ∷ (if tp.external then 0 else tp.phase)
    ∷ asked_flags tp
    ∷ 0
    ∷ 0x26
    ∷ 0
    ∷ []

abbrev pub pulse_commands : TestPulseConfig → List (List ℕ)
pulse_commands tp = if tp.enabled then pulse_command tp ∷ [] else []

-- The datagrams after the matrix and the triggers.
abbrev pub last_commands : Config → List (List ℕ)
last_commands config =
    word_command 0x08 4 (asked_general config)
      ∷ word_command 0x08 3 (asked_pll config)
      ∷ hw 14
      ∷ hw 0
      ∷ hw 4
      ∷ (dac_commands config.dacs 18 0 ++ (hw 1 ∷ []))
    ++ pulse_commands config.test_pulse_config

abbrev pub trigger_command : (start stop : ℕ) → List ℕ
trigger_command start stop = start ∷ stop ∷ 0 ∷ 0 ∷ 5 ∷ 0 ∷ 0x21 ∷ 0 ∷ []

-- The whole configuration.
abbrev pub protocol : Config → List (List ℕ)
protocol config =
    (((0 ∷ 0 ∷ 0 ∷ 0 ∷ 0 ∷ 0 ∷ 0x12 ∷ 0 ∷ []) ∷ kilobytes config.pixel_config 64 0)
      ++ (hw 5 ∷ hw 9 ∷ []))
    ++ (word_command 0x01 0 (config.acq_time % 2 ^ 32)
        ∷ word_command 0x0A 0 (config.acq_time / 2 ^ 32 % 2 ^ 32)
        ∷ word_command 0x13 0 config.no_frames
        ∷ word_command 0x02 0 config.bias
        ∷ trigger_command (asked_trigger config.start_trigger config.delayed_start)
            (asked_trigger config.stop_trigger false)
        ∷ last_commands config)

chars-matrix_bytes :
    (words : Words) (n count : ℕ) → chars words n count ≡ matrix_bytes words n count
chars-matrix_bytes words n zero = refl
chars-matrix_bytes words n (suc count) =
    ap (λ t. (words (n / 4) / 2 ^ (8 * (n % 4)) % 256) ∷ t) (chars-matrix_bytes words (n + 1) count)

chunk_script-kilobytes :
    (words : Words) (left i : ℕ) → chunk_script left i words ≡ kilobytes words left i
chunk_script-kilobytes words zero i = refl
chunk_script-kilobytes words (suc left) i =
    ap₂ (λ x xs. x ∷ xs) (chars-matrix_bytes words (1024 * i) 1024)
      (chunk_script-kilobytes words left (i + 1))

-- The four bytes of a value, as the code masks them.
masked :
    (bits index opcode : ℕ)
    → packet
        (bit_and bits 0xff)
        (bit_and (bits >>> 8) 0xff)
        (bit_and (bits >>> 16) 0xff)
        (bit_and (bits >>> 24) 0xff)
        index
        opcode
      ≡ word_command opcode index bits
masked bits index opcode = ground (
  arith,
  bit_and_mask 8 bits,
  bit_and_mask 8 (bits / 2 ^ 8),
  bit_and_mask 8 (bits / 2 ^ 16),
  bit_and_mask 8 (bits / 2 ^ 24),
)

-- Only the low 32 bits are told.
cast_word :
    (opcode index value : ℕ)
    → word_command opcode index (value % 2 ^ 32) ≡ word_command opcode index value
cast_word opcode index value = ground arith

cmd64_i64_bytes-word_command :
    (opcode index value : ℕ)
    → opcode < 256
    → index < 256
    → cmd64_i64_bytes opcode index value ≡ word_command opcode index value
unfolding cmd64_i64_bytes
cmd64_i64_bytes-word_command opcode index value ho hi =
    masked (u32 value) (u8 index) (u8 opcode)
    ∙ cast_word (u8 opcode) (u8 index) value
    ∙ ap₂ (λ i o. word_command o i value) (omega arith) (omega arith)

dac_script-dac_commands :
    (dacs : ℕ → ℕ) (left i : ℕ) → i + left < 256 → dac_script left i dacs ≡ dac_commands dacs left i
dac_script-dac_commands dacs zero i h = refl
dac_script-dac_commands dacs (suc left) i h =
    ap₂ (λ x xs. x ∷ xs) (cmd64_i64_bytes-word_command 0x04 i (dacs i) (omega arith) (omega arith))
      (dac_script-dac_commands dacs left (i + 1) (omega arith))

pulses_said :
    (tp : TestPulseConfig) (enabled : Bool)
    → tp.enabled ≡ enabled
    → (if enabled then test_pulse_bytes tp ∷ [] else [])
      ≡ (if enabled then pulse_command tp ∷ [] else [])
unfolding test_pulse_bytes
pulses_said tp false e = refl
pulses_said tp true e = ground (
  arith,
  e,
  pulse_flags-asked_flags tp,
  bit_and_mask 8 tp.count,
  bit_and_mask 8 (tp.count / 2 ^ 8),
)

last_said :
    (config : Config)
    → IsAsked config
    → (cmd64_i64_bytes 0x08 4 (
            general_config_word config.polarity_holes config.gray_disable
              config.test_pulse_config.enabled)
          ∷ cmd64_i64_bytes 0x08 3 (pll_setup config.phase config.freq)
          ∷ cmd60_bytes 0x07 14
          ∷ cmd60_bytes 0x07 0
          ∷ cmd60_bytes 0x07 4
          ∷ (dac_script 18 0 config.dacs ++ (cmd60_bytes 0x07 1 ∷ []))
        ++ (if config.test_pulse_config.enabled
            then test_pulse_bytes config.test_pulse_config ∷ []
            else []))
      ≡ last_commands config
unfolding cmd60_bytes
last_said config a =
    let general =
      cmd64_i64_bytes-word_command 0x08 4 _ (omega arith) (omega arith)
      ∙ ap (word_command 0x08 4) (general_config_word-asked_general config) in
    let pll =
      cmd64_i64_bytes-word_command 0x08 3 _ (omega arith) (omega arith)
      ∙ ap (word_command 0x08 3) (pll_setup-asked_pll config a) in
    let dacs = dac_script-dac_commands config.dacs 18 0 (omega arith) in
    let tp = config.test_pulse_config in
    let pulses = pulses_said tp tp.enabled refl in
    λ i. general i ∷ pll i ∷ hw 14 ∷ hw 0 ∷ hw 4 ∷ (dacs i ++ (hw 1 ∷ [])) ++ pulses i

-- What the code says is what the protocol documents.
pub transcript-protocol :
    (has_memory : ℕ → Bool) (config : Config)
    → IsAsked config
    → transcript has_memory config ≡ protocol config
unfolding cmd60_bytes cmd6_bytes
transcript-protocol has_memory config a =
    let t = config.acq_time in
    let matrix = chunk_script-kilobytes config.pixel_config 64 0 in
    let low =
      cmd64_i64_bytes-word_command 0x01 0 _ (omega arith) (omega arith)
      ∙ ap (word_command 0x01 0) (bit_and_mask 32 t) in
    let high =
      cmd64_i64_bytes-word_command 0x0A 0 _ (omega arith) (omega arith)
      ∙ ap (word_command 0x0A 0)
          (bit_and-div 32 t 0xFFFFFFFF00000000 ∙ bit_and_mask 32 (t / 2 ^ 32)) in
    let frames = cmd64_i64_bytes-word_command 0x13 0 config.no_frames (omega arith) (omega arith) in
    let bias = masked config.bias 0 0x02 in
    let triggers =
      ap₂ trigger_command
        (trigger_byte-asked_trigger config.start_trigger config.delayed_start a.start_lt)
        (trigger_byte-asked_trigger config.stop_trigger false a.stop_lt) in
    let last = last_said config a in
    λ i.
      (((0 ∷ 0 ∷ 0 ∷ 0 ∷ 0 ∷ 0 ∷ 0x12 ∷ 0 ∷ []) ∷ matrix i) ++ (hw 5 ∷ hw 9 ∷ []))
      ++ (low i ∷ high i ∷ frames i ∷ bias i ∷ triggers i ∷ last i)

-- A pinned control socket over a link that takes every datagram, with a mutex that can be had, on
-- which the readout has answered with as many 8-byte acknowledgements as needed, whatever they hold:
-- `katherine_configure`, of test pulses that are not refused, a phase and a frequency of the
-- enumerations and trigger channels of three bits, succeeds; it sends exactly the datagrams of
-- `protocol`, in this order, after those sent before; it takes exactly 32 acknowledgements, or 33 with
-- test pulses, and leaves the lock count as it was.
pub configure-protocol :
    (has_memory : ℕ → Bool) (config : Config) (acks : ℕ → List ℕ) (rest : List Incoming) (u : Udp)
    → (config.test_pulse_config.enabled
        && not config.test_pulse_config.external
        && is_refused config.test_pulse_config)
      ≡ false
    → IsAsked config
    → ((k : ℕ) → length (acks k) ≡ 8)
    → IsReady u
    → u.inbox
      ≡ replies u.addr_remote
          (listed 0 (32 + (if config.test_pulse_config.enabled then 1 else 0)) acks)
        ++ rest
    → configure has_memory config u
      ≡ (ok tt, record u { inbox = rest; sent = push u.addr_remote (protocol config) u.sent })
configure-protocol has_memory config acks rest u valid asked whole ready e =
    configure-transcript has_memory config acks rest u valid whole ready e
    ∙ ap (λ xs. (ok tt, record u { inbox = rest; sent = push u.addr_remote xs u.sent }))
        (transcript-protocol has_memory config asked)
