-- ===== src/Config/Upload.antt =====
-- c/src/config.c: `katherine_set_all_pixel_config`, which uploads the pixel matrix in 64 datagrams, up
-- to ten times, and floods the readout with filler where an attempt fails. Whether malloc() has a
-- kilobyte for the filler of an attempt is a parameter, and so is the matrix. The count of the
-- attempts that are left replaces `attempts = -1`, which leaves the loop.
use libkatherine.Base.{ℕ, zero, suc, ◌+◌, ◌*◌, ◌/◌, ◌%◌, ◌>>>◌, Bool, List, [], ◌∷◌, replicate}
use libkatherine.Base.{if◌then◌else◌, u8}
use libkatherine.Udp.{Udp, Result, err, ok, recv}
use libkatherine.Session.{Session, ◌>>◌, pure, locked, cmd}
use libkatherine.Session.{wait_ack_retry}
use libkatherine.Command.{cmd6}
use libkatherine.Command.CmdType
use libkatherine.Command.HwCmdType
use libkatherine.Config.{hw_command}
use libkatherine.PxConfig.{Words}

-- Byte `n` of `(const char *) px_config->words`, on a little-endian host.
abbrev pub char_at : Words → ℕ → ℕ
char_at words n = u8 (words (n / 4) >>> (8 * (n % 4)))

-- `count` bytes from byte `start` on.
abbrev pub chars : Words → ℕ → ℕ → List ℕ
chars words start zero = []
chars words start (suc count) = char_at words start ∷ chars words (start + 1) count

-- The 1024 bytes at `config + 1024 * i`.
abbrev pub chunk : Words → ℕ → List ℕ
chunk words i = chars words (1024 * i) 1024

-- The datagrams from chunk `i` on, up to the first that is not sent.
unfoldable pub send_chunks : ℕ → ℕ → Words → Session
send_chunks zero i words = pure tt
send_chunks (suc left) i words = cmd (chunk words i) >> send_chunks left (i + 1) words

abbrev pub filler : List ℕ
filler = replicate 1024 CmdType.get_hw_readout_temperature

-- The filler datagrams; whether they are sent is ignored.
unfoldable pub flood : ℕ → Udp → Udp
flood zero u = u
flood (suc left) u = flood left (cmd filler u).1

-- Receives until one fails, `left` times at most.
unfoldable pub drain : ℕ → Udp → Udp
drain zero u = u
drain (suc left) u =
    let (r, u') = recv 1024 u in let rest = drain left u' in elim r [ err e ↦ u' | ok bytes ↦ rest ]

-- `recover_from_incomplete_set_all_pixel_config`
unfoldable pub recover : Bool → Udp → Udp
recover has_memory u = if has_memory then drain 512 (flood (3 * 64) u) else u

unfoldable pub upload : Words → Session
upload words = send_chunks 64 0 words >> wait_ack_retry 10

-- The attempts that are left, with the result of the last one.
unfoldable pub attempt_loop :
    (ℕ → Bool) → Words → ℕ → Result (Unit {0}) → Udp → Result (Unit {0}) × Udp
attempt_loop has_memory words zero last u = (last, u)
attempt_loop has_memory words (suc left) last u =
    let (r, u₁) = cmd6 CmdType.set_all_pixel_config u in
    elim r [
      | err e ↦ attempt_loop has_memory words left (err e) u₁
      | ok a ↦
          let (r, u₂) = upload words u₁ in
          elim r [
            | err e ↦ attempt_loop has_memory words left (err e) (recover (has_memory left) u₂)
            | ok a ↦ (ok tt, u₂)
          ]
    ]

-- `katherine_set_all_pixel_config`
unfoldable pub set_all_pixel_config : (ℕ → Bool) → Words → Session
set_all_pixel_config has_memory words = locked (
    attempt_loop has_memory words 10 (ok tt)
    >> (hw_command HwCmdType.reset_matrix_sequential
        >> hw_command HwCmdType.load_pixel_register_configuration))
