-- ===== src/Emu/Feed.antt =====
-- What datagrams do to the registers of the emulated readout in c/src/emu/emulator.c, one after the
-- other.
use libkatherine.Base.{ℕ, ◌+◌, ◌*◌, ◌/◌, ◌%◌, ◌^◌, ◌<◌, ◌≡◌, refl, arith, ap, ◌∙◌}
use libkatherine.Base.{List, [], ◌∷◌, ◌++◌, false}
use libkatherine.Base.{bit_and, ◌>>>◌}
use libkatherine.Bits.Split.{bit_and_mask, bit_or_split, zero-bit_or, bit_or-zero}
use libkatherine.Command.{packet}
use libkatherine.Emu.{Emu, Regs}
use libkatherine.Emu.Prng.{load_le32}
use libkatherine.Emu.Commands.{cmd_in}

-- The four bytes of a payload do not overlap.
pub load_le32_lem :
    (a b c d : ℕ) (rest : List ℕ)
    → a < 256
    → b < 256
    → c < 256
    → d < 256
    → load_le32 (a ∷ b ∷ c ∷ d ∷ rest) ≡ a + b * 2 ^ 8 + c * 2 ^ 16 + d * 2 ^ 24
unfolding load_le32
load_le32_lem a b c d rest ha hb hc hd = ground (
  arith,
  bit_or_split 8 0 b a 0 (omega arith) (omega arith),
  bit_or_split 16 0 c (a + b * 2 ^ 8) 0 (omega arith) (omega arith),
  bit_or_split 24 0 d (a + b * 2 ^ 8 + c * 2 ^ 16) 0 (omega arith) (omega arith),
  zero-bit_or b,
  zero-bit_or c,
  zero-bit_or d,
  bit_or-zero a,
  bit_or-zero (a + b * 2 ^ 8),
  bit_or-zero (a + b * 2 ^ 8 + c * 2 ^ 16),
)

-- A command with a 32-bit payload.
abbrev pub command : ℕ → ℕ → ℕ → List ℕ
command code index bits =
    packet (bit_and bits 0xff) (bit_and (bits >>> 8) 0xff) (bit_and (bits >>> 16) 0xff)
      (bit_and (bits >>> 24) 0xff) index code

pub load_le32-command : (code index bits : ℕ) → load_le32 (command code index bits) ≡ bits % 2 ^ 32
load_le32-command code index bits = ground (
  arith,
  bit_and_mask 8 bits,
  bit_and_mask 8 (bits / 2 ^ 8),
  bit_and_mask 8 (bits / 2 ^ 16),
  bit_and_mask 8 (bits / 2 ^ 24),
  load_le32_lem (bits % 256) (bits / 2 ^ 8 % 256) (bits / 2 ^ 16 % 256) (bits / 2 ^ 24 % 256)
      (index ∷ 0 ∷ code ∷ 0 ∷ []),
)

-- The emulated readout after some datagrams.
unfoldable pub feed : List (List ℕ) → Emu → Emu
feed [] emu = emu
feed (bytes ∷ more) emu = feed more (cmd_in bytes emu).1

-- Outside of an upload, the datagrams change the registers by `f`, and leave the readout outside of
-- an upload.
abbrev pub Sets : List (List ℕ) → (Regs → Regs) → Type 0
Sets sent f =
    (emu : Emu)
    → emu.px_upload_active ≡ false
    → ((feed sent emu).regs ≡ f emu.regs) × ((feed sent emu).px_upload_active ≡ false)

pub feed-append : (xs ys : List (List ℕ)) (emu : Emu) → feed (xs ++ ys) emu ≡ feed ys (feed xs emu)
unfolding feed
feed-append [] ys emu = refl
feed-append (bytes ∷ xs) ys emu = feed-append xs ys (cmd_in bytes emu).1

pub Sets-append :
    (xs ys : List (List ℕ)) (f g : Regs → Regs)
    → Sets xs f
    → Sets ys g
    → Sets (xs ++ ys) (λ r. g (f r))
Sets-append xs ys f g sf sg emu e =
    let (regs, idle) = sf emu e in
    let (regs', idle') = sg (feed xs emu) idle in
    (
      ap Emu.regs (feed-append xs ys emu) ∙ regs' ∙ ap g regs,
      ap Emu.px_upload_active (feed-append xs ys emu) ∙ idle',
    )

pub Sets-none : Sets [] (λ r. r)
unfolding feed
Sets-none emu e = (refl, e)
