-- ===== src/Emu/Commands.antt =====
-- c/src/emu/emulator.c: what each command does, and the entry points of the emulated readout.
use libkatherine.Base.{ℕ, zero, suc, ◌+◌, ◌-◌, ◌*◌, ◌/◌, ◌%◌, ◌^◌, ◌==◌, ltb, if◌then◌else◌, not}
use libkatherine.Base.{u8, u16, u64, ◌<<◌, bit_and, bit_or, true, false, einval}
use libkatherine.Base.{Option, none, some, List, [], ◌∷◌, length, take, get_or}
use libkatherine.Command.CmdType
use libkatherine.Emu.{Emu, Profile, Pattern, LogEntry, Regs, store, crd_queue_cap, log_cap}
use libkatherine.Emu.Prng.{load_le32}
use libkatherine.Emu.Pump.{stream_arm, stream_stop, stream_advance, stream_reset}
use libkatherine.Emu.Respond.{
  encode_chip_id, log_cmd, queue_crd, queue_ack, queue_float, queue_word, queue_readout_status,
  queue_comm_status, consume_px_config, px_config_words,
}

-- The place of the highest digit of a number below 2 ^ fuel.
abbrev pub highest : ℕ → ℕ → ℕ
highest zero n = 0
highest (suc fuel) n = if ltb n 2 then 0 else highest fuel (n / 2) + 1

-- The bit pattern of the float `0.125f * (float) n` for n from 1 to 256.
unfoldable pub eighths : ℕ → ℕ
eighths n = let e = highest 9 n in (124 + e) * 2 ^ 23 + (n * 2 ^ (23 - e) - 2 ^ 23)

-- A change of the registers, acknowledged at once.
abbrev pub set_regs : ℕ → Regs → Emu → Emu
set_regs opcode regs emu = queue_ack opcode 0 (record emu { regs = regs })

-- The cases of the `switch` from 0x0B on.
unfoldable pub run_query : ℕ → List ℕ → Emu → Emu
unfolding queue_ack queue_float queue_word queue_readout_status queue_comm_status eighths queue_crd
run_query opcode cmd emu =
    let subindex = get_or cmd 4 0 in
    let payload = load_le32 cmd in
    let first = get_or cmd 0 0 in
    let regs = emu.regs in
    if opcode == CmdType.echo_chip_id
    then queue_word opcode 0 emu.chip_id_word emu
    else if opcode == CmdType.get_bias_voltage
    then queue_float opcode emu.regs.bias emu
    else if opcode == 0x30
    then queue_float opcode 0 emu
    else if opcode == CmdType.get_adc_voltage
    then queue_float opcode (eighths (first + 1)) emu
    else if opcode == CmdType.get_back_read_register
    then queue_word opcode 0 (if ltb first 12 then emu.regs.sensor_reg first else 0) emu
    else if opcode == CmdType.set_pixel_config
    then queue_ack opcode 0 emu
    else if opcode == CmdType.get_pixel_config
    then queue_crd (1 ∷ 1 ∷ 0 ∷ 0 ∷ 0 ∷ 0 ∷ u8 opcode ∷ 0 ∷ []) 0 emu
    else if opcode == CmdType.set_all_pixel_config
    then record emu {
      px_upload_active = true;
      px_upload_words = px_config_words;
      px_upload_chip = first;
    }
    else if opcode == CmdType.number_of_frames
    then set_regs opcode (record regs { no_frames = payload }) emu
    else if opcode == CmdType.get_hw_readout_temperature
    then queue_float opcode emu.profile.readout_temperature emu
    else if opcode == CmdType.led_settings
    then set_regs opcode (record regs { led = take 4 cmd }) emu
    else if opcode == CmdType.get_readout_status
    then queue_readout_status emu
    else if opcode == CmdType.get_communication_status
    then queue_comm_status emu
    else if opcode == CmdType.get_sensor_temperature
    then queue_float opcode emu.profile.sensor_temperature emu
    else if opcode == CmdType.digital_test
    then queue_word opcode 0 64 emu
    else if opcode == CmdType.acquisition_setup
    then set_regs opcode (record regs { acq_setup = store regs.acq_setup (subindex % 8) payload })
        emu
    else if opcode == CmdType.internal_trigger_generator
    then set_regs opcode
        (record regs { trigger_gen = store regs.trigger_gen (subindex % 8) payload }) emu
    else if opcode == CmdType.test_pulse_setting
    then queue_ack opcode 1000000000 (record emu {
      regs = record regs {
        tp_count = u16 (bit_or first (get_or cmd 1 0 << 8));
        tp_period_code = get_or cmd 2 0;
        tp_phase = get_or cmd 3 0;
        tp_flags = subindex;
      };
    })
    else if opcode == 0x27
    then queue_ack opcode 0 emu
    else if opcode == CmdType.toa_calibration_setup
    then queue_ack opcode 0 emu
    else if opcode == 0x29
    then set_regs opcode (record regs { tokens = first }) emu
    else if opcode == CmdType.internal_tdc_settings
    then set_regs opcode (record regs { tdc_setup = payload }) emu
    else if opcode == 0x50
    then emu
    else queue_ack opcode 0 (record emu { unknown_cmds = u64 (emu.unknown_cmds + 1) })

-- The `switch` on the code, of a command that has been logged.
unfoldable pub run_cmd : ℕ → List ℕ → Emu → Emu
unfolding queue_ack queue_float queue_word queue_readout_status queue_comm_status eighths
run_cmd opcode cmd emu =
    let subindex = get_or cmd 4 0 in
    let payload = load_le32 cmd in
    let regs = emu.regs in
    let ack = queue_ack opcode 0 in
    if opcode == CmdType.acquisition_time_lsb
    then set_regs opcode (record regs { acq_time_lsb = payload }) emu
    else if opcode == CmdType.acquisition_time_msb
    then set_regs opcode (record regs { acq_time_msb = payload }) emu
    else if opcode == CmdType.bias_settings
    then set_regs opcode (record regs { bias = payload }) emu
    else if opcode == CmdType.acquisition_start
    then record emu { stream = stream_arm (bit_and payload 0x1) emu }
    else if opcode == CmdType.internal_dac_settings
    then ack (
        if ltb subindex 18
        then record emu { regs = record regs { dac = store regs.dac subindex (u16 payload) } }
        else emu)
    else if opcode == CmdType.seq_readout_start
    then record emu { regs = record regs { readout_mode = bit_and payload 0x1 } }
    else if opcode == CmdType.acquisition_stop
    then record emu { stream = stream_stop emu.now_ns emu.stream }
    else if opcode == CmdType.hw_command_start
    then ack emu
    else if opcode == CmdType.sensor_register_setting
    then ack (
        if ltb subindex 12
        then record emu {
          regs = record regs { sensor_reg = store regs.sensor_reg subindex payload };
        }
        else emu)
    else if opcode == CmdType.acquisition_mode_setting
    then set_regs opcode
        (record regs {
          acq_mode = bit_and (get_or cmd 0 0) 0x3F;
          fast_vco = not (bit_and (get_or cmd 0 0) 0x80 == 0);
        })
        emu
    else run_query opcode cmd emu

unfoldable pub handle_cmd : List ℕ → Emu → Emu
unfolding run_cmd run_query log_cmd
handle_cmd cmd emu =
    let opcode = bit_or (get_or cmd 6 0) (get_or cmd 7 0 << 8) in
    run_cmd opcode cmd (log_cmd cmd emu)

-- `katherine_emu_profile_defaults`: 30 and 40 degrees, and `A1-W0001`.
unfoldable pub profile_defaults : Profile
profile_defaults = record {
  hw_type = 1;
  hw_revision = 1;
  serial = 1;
  fw_version = 1;
  chip_id = 65 ∷ 49 ∷ 45 ∷ 87 ∷ 48 ∷ 48 ∷ 48 ∷ 49 ∷ [];
  readout_temperature = 0x41F00000;
  sensor_temperature = 0x42200000;
  ack_latency_ns = 0;
  ack_jitter_ns = 0;
  seed = 42;
  shape_bytes_per_s = 0;
  pattern = Pattern.uniform;
  hits_per_frame = 1000;
  lost_per_frame = 0;
}

abbrev pub no_regs : Regs
no_regs = record {
  dac = λ _. 0;
  sensor_reg = λ _. 0;
  acq_setup = λ _. 0;
  trigger_gen = λ _. 0;
  bias = 0;
  acq_time_lsb = 0;
  acq_time_msb = 0;
  no_frames = 0;
  acq_mode = 0;
  fast_vco = false;
  readout_mode = 0;
  tokens = 0;
  tdc_setup = 0;
  led = 0 ∷ 0 ∷ 0 ∷ 0 ∷ [];
  tp_count = 0;
  tp_period_code = 0;
  tp_phase = 0;
  tp_flags = 0;
}

-- `katherine_emu_init`, of the given profile; its identifier is cut to fifteen characters.
unfoldable pub emu_init : Profile → Emu
unfolding encode_chip_id stream_reset
emu_init profile =
    let chip_id = take 15 profile.chip_id in
    record {
      profile = record profile { chip_id = chip_id };
      chip_id_word = encode_chip_id chip_id;
      now_ns = 0;
      regs = no_regs;
      px_upload_words = 0;
      px_upload_active = false;
      px_upload_chip = 0;
      crd = λ _. record { due_ns = 0; bytes = [] };
      crd_head = 0;
      crd_count = 0;
      crd_dropped = 0;
      log = λ _. record { opcode = 0; subindex = 0; payload = 0 };
      log_head = 0;
      log_count = 0;
      unknown_cmds = 0;
      jitter_rng = profile.seed;
      stream = stream_reset;
    }

-- `katherine_emu_cmd_in`
unfoldable pub cmd_in : List ℕ → Emu → ℕ × Emu
unfolding handle_cmd consume_px_config
cmd_in bytes emu =
    if emu.px_upload_active
    then (0, consume_px_config (length bytes) emu)
    else if ltb (length bytes) 8
    then (einval, emu)
    else (0, handle_cmd bytes emu)

-- `katherine_emu_crd_out`: the response, or EAGAIN.
unfoldable pub crd_out : Emu → Option (List ℕ) × Emu
crd_out emu =
    let slot = emu.crd emu.crd_head in
    if emu.crd_count == 0
    then (none, emu)
    else if ltb emu.now_ns slot.due_ns
    then (none, emu)
    else (
      some slot.bytes,
      record emu { crd_head = (emu.crd_head + 1) % crd_queue_cap; crd_count = emu.crd_count - 1 },
    )

-- `katherine_emu_advance`
unfoldable pub advance : ℕ → Emu → Emu
advance ns emu = record emu {
  now_ns = u64 (emu.now_ns + ns);
  stream = stream_advance emu.profile.shape_bytes_per_s ns emu.stream;
}

-- `katherine_emu_log_read`, of at most `max` entries.
unfoldable pub log_read : ℕ → Emu → List LogEntry × Emu
log_read zero emu = ([], emu)
log_read (suc max) emu =
    let (entries, emu') =
      log_read max
        (record emu { log_head = (emu.log_head + 1) % log_cap; log_count = emu.log_count - 1 }) in
    if emu.log_count == 0 then ([], emu) else (emu.log emu.log_head ∷ entries, emu')
