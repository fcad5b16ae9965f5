-- ===== src/Emu/Respond.antt =====
-- c/src/emu/emulator.c: the command responder of the emulated readout. A NULL argument of its entry
-- points, which they refuse with EINVAL, is not modelled. A datagram is its bytes.
use libkatherine.Base.{ℕ, ◌+◌, ◌-◌, ◌*◌, ◌/◌, ◌%◌, ◌==◌, ltb, leb, if◌then◌else◌}
use libkatherine.Base.{◌&&◌, ◌||◌, u8, u32, u64, ◌<<◌, bit_and, bit_or, Bool, true, false}
use libkatherine.Base.{List, [], ◌∷◌, ◌++◌, get_or, le_bytes}
use libkatherine.Bitfield.{insert}
use libkatherine.Crd
use libkatherine.Command.CmdType
use libkatherine.Emu.{Emu, Profile, LogEntry, Crd as CrdSlot, store, crd_queue_cap, log_cap}
use libkatherine.Emu.Prng.{prng_below, load_le32}

-- A run of decimal digits, read onto `n`, and what follows it. Unsigned arithmetic wraps.
unfoldable pub read_digits : ℕ → List ℕ → ℕ × List ℕ
read_digits n [] = (n, [])
read_digits n (c ∷ rest) = elim (leb 48 c && leb c 57) [
  | true ↦ read_digits (u32 (10 * n + (c - 48))) rest
  | false ↦ (n, c ∷ rest)
]

-- What follows the first `W` or `w`.
unfoldable pub skip_wafer : List ℕ → List ℕ
skip_wafer [] = []
skip_wafer (c ∷ rest) =
    let skipped = skip_wafer rest in if c == 87 || c == 119 then rest else skipped

unfoldable pub encode_fields : ℕ → List ℕ → ℕ
unfolding read_digits skip_wafer
encode_fields x rest =
    let (y, rest) = read_digits 0 rest in
    let (w, rest) = read_digits 0 (skip_wafer rest) in
    bit_or (bit_or (bit_and w 0xFFF << 8) (bit_and y 0xF << 4)) (bit_and (x + 1) 0xF)

-- `encode_chip_id`
unfoldable pub encode_chip_id : List ℕ → ℕ
unfolding encode_fields
encode_chip_id [] = 0
encode_chip_id (c ∷ rest) =
    if leb 65 c && leb c 90
    then encode_fields (c - 65) rest
    else if leb 97 c && leb c 122
    then encode_fields (c - 97) rest
    else 0

unfoldable pub log_cmd : List ℕ → Emu → Emu
log_cmd cmd emu =
    let full = emu.log_count == log_cap in
    let head = if full then (emu.log_head + 1) % log_cap else emu.log_head in
    let count = if full then emu.log_count - 1 else emu.log_count in
    let entry : LogEntry = record {
      opcode = get_or cmd 6 0;
      subindex = get_or cmd 4 0;
      payload = load_le32 cmd;
    } in
    record emu {
      log = store emu.log ((head + count) % log_cap) entry;
      log_head = head;
      log_count = count + 1;
    }

unfoldable pub queue_crd : List ℕ → ℕ → Emu → Emu
queue_crd bytes apply_ns emu =
    let (jitter, rng) = prng_below emu.jitter_rng (u64 (emu.profile.ack_jitter_ns + 1)) in
    let slot : CrdSlot = record {
      due_ns = u64 (emu.now_ns + emu.profile.ack_latency_ns + jitter + apply_ns);
      bytes = bytes;
    } in
    if emu.crd_count == crd_queue_cap
    then record emu { jitter_rng = rng; crd_dropped = u64 (emu.crd_dropped + 1) }
    else record emu {
      jitter_rng = rng;
      crd = store emu.crd ((emu.crd_head + emu.crd_count) % crd_queue_cap) slot;
      crd_count = emu.crd_count + 1;
    }

-- The eight bytes of a response with a payload of four, a byte 4 and the code in byte 6.
abbrev pub response : ℕ → ℕ → ℕ → List ℕ
response opcode subindex value = le_bytes 4 value ++ (subindex ∷ 0 ∷ u8 opcode ∷ 0 ∷ [])

unfoldable pub queue_ack : ℕ → ℕ → Emu → Emu
unfolding queue_crd
queue_ack opcode apply_ns emu = queue_crd (response opcode 0 0) apply_ns emu

-- `queue_float`, of the bit pattern of the float.
unfoldable pub queue_float : ℕ → ℕ → Emu → Emu
unfolding queue_crd
queue_float opcode bits emu = queue_crd (response opcode 0 bits) 0 emu

unfoldable pub queue_word : ℕ → ℕ → ℕ → Emu → Emu
unfolding queue_crd
queue_word opcode subindex value emu = queue_crd (response opcode subindex value) 0 emu

unfoldable pub readout_status_bytes : Profile → List ℕ
readout_status_bytes profile =
    let val = insert 0 Crd.hw_type profile.hw_type in
    let val = insert val Crd.hw_revision profile.hw_revision in
    let val = insert val Crd.hw_serial_number profile.serial in
    let val = insert val Crd.fw_version profile.fw_version in
    le_bytes 6 val ++ (CmdType.get_readout_status ∷ 0 ∷ [])

unfoldable pub queue_readout_status : Emu → Emu
unfolding queue_crd
queue_readout_status emu = queue_crd (readout_status_bytes emu.profile) 0 emu

-- `KATHERINE_EMU_COMM_LINES_MASK` is 0xFF, `KATHERINE_EMU_CHIP_COUNT` is 1.
unfoldable pub comm_status_bytes : ℕ → Bool → List ℕ
comm_status_bytes shape_bytes_per_s armed =
    let rate = shape_bytes_per_s / 5 in
    let rate = if ltb 0xFF rate then 0xFF else rate in
    let val = insert 0 Crd.comm_lines_mask 0xFF in
    let val = insert val Crd.total_data_rate rate in
    let val = insert val Crd.chip_detected_flag 1 in
    le_bytes 3 val ++ ((if armed then 1 else 0) ∷ 0 ∷ 0 ∷ CmdType.get_communication_status ∷ 0 ∷ [])

unfoldable pub queue_comm_status : Emu → Emu
unfolding queue_crd
queue_comm_status emu =
    queue_crd (comm_status_bytes emu.profile.shape_bytes_per_s emu.stream.armed) 0 emu

abbrev pub px_config_words : ℕ
px_config_words = 16384

unfoldable pub consume_px_config : ℕ → Emu → Emu
unfolding queue_ack
consume_px_config len emu =
    let words = u32 (len / 4) in
    if leb emu.px_upload_words words
    then queue_ack CmdType.set_all_pixel_config 0
        (record emu { px_upload_words = 0; px_upload_active = false })
    else record emu { px_upload_words = emu.px_upload_words - words }
