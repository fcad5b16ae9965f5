-- ===== src/Emu/Log.antt =====
-- The command log of the emulated readout.
use libkatherine.Base.{ℕ, zero, suc, ◌+◌, ◌-◌, ◌%◌, ◌<◌, ◌≤◌, ◌≡◌, ◌≢◌, refl, sym, ap, ◌∙◌, arith}
use mathlib.Core.List.{append_assoc, append-nil}
use libkatherine.Base.{
  length-append, length-drop, drop-append, map, List, [], ◌∷◌, ◌++◌, length, ◌==◌, if◌then◌else◌,
  get_or, drop,
}
use libkatherine.Emu.{Emu, LogEntry}
use libkatherine.Emu.Prng.{load_le32}
use libkatherine.Emu.Ring.{ring, length-ring, GoesRound, ring_wrapped, ring-store}
use libkatherine.Emu.Respond.{log_cmd}

goes_2048 : GoesRound 2048
goes_2048 = record {
  next = λ h k e. omega arith;
  apart = λ h i n lt small e. omega arith;
  small = λ h lt. omega arith;
  twice = λ h. omega arith;
}

-- The commands in the log, oldest first.
abbrev pub logged : Emu → List LogEntry
logged emu = ring 2048 emu.log emu.log_head emu.log_count

pub record IsLog (emu : Emu) : Type 0 where
  pub head_in : emu.log_head < 2048
  pub count_in : emu.log_count ≤ 2048

abbrev pub entry_of : List ℕ → LogEntry
entry_of cmd = record {
  opcode = get_or cmd 6 0;
  subindex = get_or cmd 4 0;
  payload = load_le32 cmd;
}

abbrev pub rest_of {ℓ} : {A : Type ℓ} → List A → List A
rest_of [] = []
rest_of (x ∷ xs) = xs

-- The latest `cap` of a list that grows at its end.
abbrev pub remember : List LogEntry → LogEntry → List LogEntry
remember entries entry =
    if length entries == 2048 then rest_of entries ++ (entry ∷ []) else entries ++ (entry ∷ [])

pub log_cmd-IsLog : (cmd : List ℕ) (emu : Emu) → IsLog emu → IsLog (log_cmd cmd emu)
unfolding log_cmd
log_cmd-IsLog cmd emu h = ground arith

rest-ring :
    (log : ℕ → LogEntry) (head count : ℕ)
    → count ≢ 0
    → rest_of (ring 2048 log head count) ≡ ring 2048 log ((head + 1) % 2048) (count - 1)
rest-ring log head zero ne = absurd (ne refl)
rest-ring log head (suc count) ne =
    let e : count ≡ suc count - 1 = omega arith in
    sym (ring_wrapped goes_2048 log (head + 1) count) ∙ ap (ring 2048 log ((head + 1) % 2048)) e

-- A command is added to the log, which forgets its oldest entry where it is full.
pub log_cmd_refines :
    (cmd : List ℕ) (emu : Emu)
    → IsLog emu
    → logged (log_cmd cmd emu) ≡ remember (logged emu) (entry_of cmd)
unfolding log_cmd
log_cmd_refines cmd emu h = ground (
  arith,
  length-ring 2048 emu.log emu.log_head emu.log_count,
  rest-ring emu.log emu.log_head emu.log_count,
  ring-store goes_2048 emu.log (entry_of cmd) emu.log_count emu.log_head
      ((emu.log_head + emu.log_count) % 2048),
  ring-store goes_2048 emu.log (entry_of cmd) (emu.log_count - 1) ((emu.log_head + 1) % 2048)
      (((emu.log_head + 1) % 2048 + (emu.log_count - 1)) % 2048),
)

module _ {ℓ} {A : Type ℓ} where
  rest_of-drop : (k : ℕ) (xs : List A) → rest_of (drop k xs) ≡ drop (suc k) xs
  rest_of-drop zero [] = refl
  rest_of-drop zero (x ∷ xs) = refl
  rest_of-drop (suc k) [] = refl
  rest_of-drop (suc k) (x ∷ xs) = rest_of-drop k xs

-- The last 2048 of a history.
abbrev pub latest : List LogEntry → List LogEntry
latest history = drop (length history - 2048) history

remember-latest :
    (history : List LogEntry) (entry : LogEntry)
    → remember (latest history) entry ≡ latest (history ++ (entry ∷ []))
remember-latest history entry =
    let k = length history - 2048 in
    ground (
      arith,
      length-drop k history,
      length-append history (entry ∷ []),
      drop-append k history (entry ∷ []),
      drop-append (suc k) history (entry ∷ []),
      rest_of-drop k history,
    )

unfoldable pub log_all : List (List ℕ) → Emu → Emu
log_all [] emu = emu
log_all (cmd ∷ cmds) emu = log_all cmds (log_cmd cmd emu)

log_onto :
    (cmds : List (List ℕ)) (history : List LogEntry) (emu : Emu)
    → IsLog emu
    → logged emu ≡ latest history
    → logged (log_all cmds emu) ≡ latest (history ++ map entry_of cmds)
unfolding log_all
log_onto [] history emu h e = e ∙ ap latest (sym (append-nil history))
log_onto (cmd ∷ cmds) history emu h e =
    log_onto cmds (history ++ (entry_of cmd ∷ [])) (log_cmd cmd emu) (log_cmd-IsLog cmd emu h) (
      log_cmd_refines cmd emu h
      ∙ ap (λ entries. remember entries (entry_of cmd)) e
      ∙ remember-latest history (entry_of cmd))
    ∙ ap latest (append_assoc history (entry_of cmd ∷ []) (map entry_of cmds))

-- After any commands, an empty log holds the latest 2048 of them, oldest first, each by its code, its
-- byte 4 and its payload.
pub logged-log_all :
    (cmds : List (List ℕ)) (emu : Emu)
    → emu.log_head < 2048
    → emu.log_count ≡ 0
    → logged (log_all cmds emu) ≡ latest (map entry_of cmds)
logged-log_all cmds emu h e =
    log_onto cmds [] emu (record { head_in = h; count_in = omega arith })
      (ap (ring 2048 emu.log emu.log_head) e)
