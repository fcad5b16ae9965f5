-- ===== src/Emu/Registers.antt =====
-- What each command of a configuration does to the registers of the emulated readout in
-- c/src/emu/emulator.c.
use libkatherine.Base.{ℕ, ◌%◌, ◌^◌, ◌<◌, ◌≡◌, refl, arith, ap, sym, ◌∙◌}
use libkatherine.Base.{List, [], ◌∷◌, length, u16}
use mathlib.Core.Path.{subst}
use libkatherine.Command.{packet}
use libkatherine.Command.CmdType
use libkatherine.Emu.{Emu, Regs, store}
use libkatherine.Emu.Prng.{load_le32}
use libkatherine.Emu.Respond.{queue_crd, queue_ack, log_cmd, response}
use libkatherine.Emu.Commands.{run_query, run_cmd, handle_cmd, cmd_in}
use libkatherine.Emu.Feed.{feed, Sets, command, load_le32-command}

-- Two readouts with the same registers, both in an upload or both not.
pub record Alike (emu emu' : Emu) : Type 0 where
  pub regs : emu.regs ≡ emu'.regs
  pub active : emu.px_upload_active ≡ emu'.px_upload_active

pub queue_crd-Alike : (bytes : List ℕ) (ns : ℕ) (emu : Emu) → Alike (queue_crd bytes ns emu) emu
unfolding queue_crd
queue_crd-Alike bytes ns emu = record { regs = ground arith; active = ground arith }

pub log_cmd-Alike : (bytes : List ℕ) (emu : Emu) → Alike (log_cmd bytes emu) emu
unfolding log_cmd
log_cmd-Alike bytes emu = record { regs = refl; active = refl }

-- A command that is handled by changing the registers.
Sets-one :
    (bytes : List ℕ) (f : Regs → Regs)
    → length bytes ≡ 8
    → ((emu : Emu) → Alike (handle_cmd bytes emu) (record emu { regs = f emu.regs }))
    → Sets (bytes ∷ []) f
unfolding feed cmd_in
Sets-one bytes f h alike emu idle =
    let a = alike emu in (ground (arith, a.regs), ground (arith, a.active))

-- A logged command that changes the registers and is acknowledged.
acked :
    (bytes answer : List ℕ) (ns : ℕ) (f : Regs → Regs) (emu : Emu)
    → Alike
        (queue_crd answer ns (record (log_cmd bytes emu) { regs = f (log_cmd bytes emu).regs }))
        (record emu { regs = f emu.regs })
acked bytes answer ns f emu =
    let l = log_cmd-Alike bytes emu in
    let q =
      queue_crd-Alike answer ns
        (record (log_cmd bytes emu) { regs = f (log_cmd bytes emu).regs }) in
    record { regs = q.regs ∙ ap f l.regs; active = q.active ∙ l.active }

-- A logged command that stores its payload and is acknowledged.
pub Sets-payload :
    (code index bits ns : ℕ) (answer : List ℕ) (set : ℕ → Regs → Regs)
    → ((emu : Emu)
        → let bytes = command code index bits in
          let l = log_cmd bytes emu in
          handle_cmd bytes emu
          ≡ queue_crd answer ns (record l { regs = set (load_le32 bytes) l.regs }))
    → Sets (command code index bits ∷ []) (set (bits % 2 ^ 32))
Sets-payload code index bits ns answer set handled =
    let bytes = command code index bits in
    subst (λ v. Sets (bytes ∷ []) (set v)) (load_le32-command code index bits)
      (Sets-one bytes (set (load_le32 bytes)) refl (λ emu.
        subst (λ done. Alike done (record emu { regs = set (load_le32 bytes) emu.regs }))
          (sym (handled emu)) (acked bytes answer ns (set (load_le32 bytes)) emu)))

-- A logged command of any bytes that changes the registers and is acknowledged.
pub Sets-bytes :
    (bytes answer : List ℕ) (ns : ℕ) (f : Regs → Regs)
    → length bytes ≡ 8
    → ((emu : Emu)
        → let l = log_cmd bytes emu in
          handle_cmd bytes emu ≡ queue_crd answer ns (record l { regs = f l.regs }))
    → Sets (bytes ∷ []) f
Sets-bytes bytes answer ns f h handled = Sets-one bytes f h (λ emu.
    subst (λ done. Alike done (record emu { regs = f emu.regs })) (sym (handled emu))
      (acked bytes answer ns f emu))

pub Sets-acq_time_lsb :
    (bits : ℕ)
    → Sets
        (command CmdType.acquisition_time_lsb 0 bits ∷ [])
        (λ r. record r { acq_time_lsb = bits % 2 ^ 32 })
unfolding handle_cmd run_cmd queue_ack
Sets-acq_time_lsb bits =
    Sets-payload CmdType.acquisition_time_lsb 0 bits 0 (response CmdType.acquisition_time_lsb 0 0)
      (λ v r. record r { acq_time_lsb = v }) (λ emu. refl)

pub Sets-acq_time_msb :
    (bits : ℕ)
    → Sets
        (command CmdType.acquisition_time_msb 0 bits ∷ [])
        (λ r. record r { acq_time_msb = bits % 2 ^ 32 })
unfolding handle_cmd run_cmd queue_ack
Sets-acq_time_msb bits =
    Sets-payload CmdType.acquisition_time_msb 0 bits 0 (response CmdType.acquisition_time_msb 0 0)
      (λ v r. record r { acq_time_msb = v }) (λ emu. refl)

pub Sets-bias :
    (bits : ℕ)
    → Sets (command CmdType.bias_settings 0 bits ∷ []) (λ r. record r { bias = bits % 2 ^ 32 })
unfolding handle_cmd run_cmd queue_ack
Sets-bias bits =
    Sets-payload CmdType.bias_settings 0 bits 0 (response CmdType.bias_settings 0 0)
      (λ v r. record r { bias = v }) (λ emu. refl)

pub Sets-no_frames :
    (bits : ℕ)
    → Sets
        (command CmdType.number_of_frames 0 bits ∷ [])
        (λ r. record r { no_frames = bits % 2 ^ 32 })
unfolding handle_cmd run_cmd run_query queue_ack
Sets-no_frames bits =
    Sets-payload CmdType.number_of_frames 0 bits 0 (response CmdType.number_of_frames 0 0)
      (λ v r. record r { no_frames = v }) (λ emu. refl)

pub Sets-sensor_reg :
    (index bits : ℕ)
    → index < 12
    → Sets
        (command CmdType.sensor_register_setting index bits ∷ [])
        (λ r. record r { sensor_reg = store r.sensor_reg index (bits % 2 ^ 32) })
unfolding handle_cmd run_cmd queue_ack
Sets-sensor_reg index bits h =
    Sets-payload CmdType.sensor_register_setting index bits 0
      (response CmdType.sensor_register_setting 0 0)
      (λ v r. record r { sensor_reg = store r.sensor_reg index v }) (λ emu. ground (arith, h))

pub Sets-dac :
    (index bits : ℕ)
    → index < 18
    → Sets
        (command CmdType.internal_dac_settings index bits ∷ [])
        (λ r. record r { dac = store r.dac index (u16 (bits % 2 ^ 32)) })
unfolding handle_cmd run_cmd queue_ack
Sets-dac index bits h =
    Sets-payload CmdType.internal_dac_settings index bits 0
      (response CmdType.internal_dac_settings 0 0)
      (λ v r. record r { dac = store r.dac index (u16 v) }) (λ emu. ground (arith, h))

pub Sets-hw_command : (hw : ℕ) → Sets (packet hw 0 0 0 0 CmdType.hw_command_start ∷ []) (λ r. r)
unfolding handle_cmd run_cmd queue_ack
Sets-hw_command hw =
    Sets-bytes (packet hw 0 0 0 0 CmdType.hw_command_start) (response CmdType.hw_command_start 0 0)
      0 (λ r. r) refl (λ emu. refl)
