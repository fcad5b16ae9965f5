-- ===== src/Emu/Safe.antt =====
-- The state of the emulated readout over all the calls of c/src/emu/emulator.c and
-- c/src/emu/emu_stream.c.
use libkatherine.Base.{ℕ, zero, suc, ◌+◌, ◌-◌, ◌/◌, ◌%◌, ◌<◌, ◌≤◌, arith}
use libkatherine.Base.{List, [], ◌∷◌, length, Bool, true, false, leb, u32}
use libkatherine.Base.{if◌then◌else◌, get_or, bit_or, ◌<<◌}
use libkatherine.Emu.{Emu, Stream, Profile, Regs}
use libkatherine.Emu.Tokens.{IsSound, advance-IsSound}
use libkatherine.Emu.Handover.{data_out-HandsOver}
use libkatherine.Command.CmdType
use libkatherine.Emu.Pending.{Kept, pump-Kept}
use libkatherine.Emu.Generator.{emit, has_room}
use libkatherine.Emu.Staging.{length_staged}
use libkatherine.Emu.Pump.{data_out, stream_arm, stream_stop, stream_reset, pump, halt}
use libkatherine.Emu.Respond.{
  queue_crd, queue_ack, queue_float, queue_word, queue_readout_status, queue_comm_status, log_cmd,
  consume_px_config, response,
}
use libkatherine.Emu.Commands.{
  run_query, run_cmd, handle_cmd, emu_init, cmd_in, crd_out, advance, log_read,
}

-- The indices are in range, no more responses or commands are held than there is room for, an upload
-- waits for 16384 words at most, and the stream is sound.
pub record IsEmu (emu : Emu) : Type 0 where
  pub crd_head_in : emu.crd_head < 256
  pub crd_count_in : emu.crd_count ≤ 256
  pub log_head_in : emu.log_head < 2048
  pub log_count_in : emu.log_count ≤ 2048
  pub words_in : emu.px_upload_words ≤ 16384
  pub stream_sound : IsSound emu.stream

set_regs-IsEmu : (regs : Regs) (emu : Emu) → IsEmu emu → IsEmu (record emu { regs = regs })
set_regs-IsEmu regs emu h = ground arith

queue_crd-IsEmu :
    (bytes : List ℕ) (apply_ns : ℕ) (emu : Emu) → IsEmu emu → IsEmu (queue_crd bytes apply_ns emu)
unfolding queue_crd
queue_crd-IsEmu bytes apply_ns emu h = ground (arith, h)

if-IsEmu : (b : Bool) (emu emu' : Emu) → IsEmu emu → IsEmu emu' → IsEmu (if b then emu else emu')
if-IsEmu true emu emu' h h' = h
if-IsEmu false emu emu' h h' = h'

unknown-IsEmu : (n : ℕ) (emu : Emu) → IsEmu emu → IsEmu (record emu { unknown_cmds = n })
unknown-IsEmu n emu h = ground arith

upload-IsEmu :
    (chip : ℕ) (emu : Emu)
    → IsEmu emu
    → IsEmu (record emu { px_upload_active = true; px_upload_words = 16384; px_upload_chip = chip })
upload-IsEmu chip emu h = ground arith

run_query-IsEmu :
    (opcode : ℕ) (bytes : List ℕ) (emu : Emu) → IsEmu emu → IsEmu (run_query opcode bytes emu)
unfolding run_query queue_ack queue_float queue_word queue_readout_status queue_comm_status
run_query-IsEmu opcode bytes emu h =
    search (queue_crd-IsEmu, if-IsEmu, set_regs-IsEmu, unknown-IsEmu, upload-IsEmu) depth 40 fits
      5000

halt-IsSound : (s : Stream) → IsSound s → IsSound (halt s)
unfolding halt emit has_room
halt-IsSound s h = grind (arith, length_staged)

if-IsSound : (b : Bool) (s s' : Stream) → IsSound s → IsSound s' → IsSound (if b then s else s')
if-IsSound true s s' h h' = h
if-IsSound false s s' h h' = h'

stream_stop-IsSound : (now : ℕ) (s : Stream) → IsSound s → IsSound (stream_stop now s)
unfolding stream_stop halt pump
stream_stop-IsSound now s h =
    let p = pump now s in
    if-IsSound s.armed (halt p) s (halt-IsSound p (Kept.sound (pump-Kept now s h))) h

stream_arm-IsSound : (mode : ℕ) (emu : Emu) → IsSound emu.stream → IsSound (stream_arm mode emu)
unfolding stream_arm
stream_arm-IsSound mode emu h = ground arith

stream-IsEmu : (s : Stream) (emu : Emu) → IsSound s → IsEmu emu → IsEmu (record emu { stream = s })
stream-IsEmu s emu hs h = ground (arith, hs)

stream_of : (emu : Emu) → IsEmu emu → IsSound emu.stream
stream_of emu h = h.stream_sound

ruleset keeping = (
  queue_crd-IsEmu, if-IsEmu, set_regs-IsEmu, unknown-IsEmu, upload-IsEmu, stream-IsEmu,
  stream_stop-IsSound, stream_arm-IsSound, run_query-IsEmu, stream_of,
)

run_cmd-IsEmu :
    (opcode : ℕ) (bytes : List ℕ) (emu : Emu) → IsEmu emu → IsEmu (run_cmd opcode bytes emu)
unfolding run_cmd queue_ack
run_cmd-IsEmu opcode bytes emu h = search keeping depth 40 fits 5000

log_cmd-IsEmu : (bytes : List ℕ) (emu : Emu) → IsEmu emu → IsEmu (log_cmd bytes emu)
unfolding log_cmd
log_cmd-IsEmu bytes emu h = ground (arith, h)

pub handle_cmd-IsEmu : (bytes : List ℕ) (emu : Emu) → IsEmu emu → IsEmu (handle_cmd bytes emu)
unfolding handle_cmd
handle_cmd-IsEmu bytes emu h =
    run_cmd-IsEmu (bit_or (get_or bytes 6 0) (get_or bytes 7 0 << 8)) bytes (log_cmd bytes emu)
      (log_cmd-IsEmu bytes emu h)

upload_left :
    (words : ℕ) (active : Bool) (emu : Emu)
    → words ≤ 16384
    → IsEmu emu
    → IsEmu (record emu { px_upload_words = words; px_upload_active = active })
upload_left words active emu hw h = ground (arith, h)

consume_px_config-IsEmu : (len : ℕ) (emu : Emu) → IsEmu emu → IsEmu (consume_px_config len emu)
unfolding consume_px_config queue_ack
consume_px_config-IsEmu len emu h =
    let words = u32 (len / 4) in
    let done = record emu { px_upload_words = 0; px_upload_active = false } in
    let left = emu.px_upload_words - words in
    let bound = h.words_in in
    if-IsEmu (leb emu.px_upload_words words)
      (queue_crd (response CmdType.set_all_pixel_config 0 0) 0 done)
      (record emu { px_upload_words = left })
      (queue_crd-IsEmu (response CmdType.set_all_pixel_config 0 0) 0 done
        (upload_left 0 false emu (omega arith) h))
      (upload_left left emu.px_upload_active emu (omega (arith, bound)) h)

pub cmd_in-IsEmu : (bytes : List ℕ) (emu : Emu) → IsEmu emu → IsEmu (cmd_in bytes emu).1
unfolding cmd_in
cmd_in-IsEmu bytes emu h =
    ground (arith, h, consume_px_config-IsEmu (length bytes) emu h, handle_cmd-IsEmu bytes emu h)

crd_out-IsEmu : (emu : Emu) → IsEmu emu → IsEmu (crd_out emu).1
unfolding crd_out
crd_out-IsEmu emu h = ground (arith, h)

advance-IsEmu : (ns : ℕ) (emu : Emu) → IsEmu emu → IsEmu (advance ns emu)
unfolding advance
advance-IsEmu ns emu h =
    let s = advance-IsSound emu.profile.shape_bytes_per_s ns emu.stream h.stream_sound in
    ground (arith, h, s)

log_read-IsEmu : (room : ℕ) (emu : Emu) → IsEmu emu → IsEmu (log_read room emu).1
unfolding log_read
log_read-IsEmu zero emu h = h
log_read-IsEmu (suc room) emu h =
    let next = record emu { log_head = (emu.log_head + 1) % 2048; log_count = emu.log_count - 1 } in
    let next_in : IsEmu next = ground (arith, h) in
    ground (arith, h, log_read-IsEmu room next next_in)

data_out-IsEmu : (room : ℕ) (emu : Emu) → IsEmu emu → IsEmu (data_out room emu).1
unfolding data_out
data_out-IsEmu room emu h = ground (arith, h, (data_out-HandsOver room emu h.stream_sound).sound)

emu_init-IsEmu : (profile : Profile) → IsEmu (emu_init profile)
unfolding emu_init stream_reset
emu_init-IsEmu profile = ground arith

-- What a host does with the emulated readout: it sends a datagram, asks for a response or for data,
-- reads the log, or lets time pass.
pub data HostCall : Type 0 where
  send : List ℕ → HostCall
  collect : HostCall
  take_data : ℕ → HostCall
  read_log : ℕ → HostCall
  wait : ℕ → HostCall

unfoldable pub call : HostCall → Emu → Emu
call (HostCall.send bytes) emu = (cmd_in bytes emu).1
call HostCall.collect emu = (crd_out emu).1
call (HostCall.take_data room) emu = (data_out room emu).1
call (HostCall.read_log room) emu = (log_read room emu).1
call (HostCall.wait ns) emu = advance ns emu

unfoldable pub calls : List HostCall → Emu → Emu
unfolding call
calls [] emu = emu
calls (c ∷ cs) emu = calls cs (call c emu)

call-IsEmu : (c : HostCall) (emu : Emu) → IsEmu emu → IsEmu (call c emu)
unfolding call
call-IsEmu (HostCall.send bytes) emu h = cmd_in-IsEmu bytes emu h
call-IsEmu HostCall.collect emu h = crd_out-IsEmu emu h
call-IsEmu (HostCall.take_data room) emu h = data_out-IsEmu room emu h
call-IsEmu (HostCall.read_log room) emu h = log_read-IsEmu room emu h
call-IsEmu (HostCall.wait ns) emu h = advance-IsEmu ns emu h

calls_keep : (cs : List HostCall) (emu : Emu) → IsEmu emu → IsEmu (calls cs emu)
unfolding calls call
calls_keep [] emu h = h
calls_keep (c ∷ cs) emu h = calls_keep cs (call c emu) (call-IsEmu c emu h)

-- Whatever datagrams an emulated readout of any profile is sent, in whatever order and with whatever
-- waits responses, data and the log are asked for: the indices of its queue and of its log stay in
-- range, it holds no more responses and commands than there is room for, an upload waits for 16384
-- words at most, and the stream stays sound. The staging buffer holds whole data, 1024 at most, of
-- which whole data have been handed over, and the bucket holds one burst at most.
pub calls-IsEmu : (cs : List HostCall) (profile : Profile) → IsEmu (calls cs (emu_init profile))
calls-IsEmu cs profile = calls_keep cs (emu_init profile) (emu_init-IsEmu profile)
