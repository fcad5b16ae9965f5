-- ===== src/Base/Errno.antt =====
-- The values of errno.h that the code returns itself, as Linux numbers them; 0 is success.
use Prim.Native.Nat.{ℕ}

abbrev pub eintr : ℕ
eintr = 4

abbrev pub eio : ℕ
eio = 5

abbrev pub eagain : ℕ
eagain = 11

abbrev pub enomem : ℕ
enomem = 12

abbrev pub einval : ℕ
einval = 22

abbrev pub etimedout : ℕ
etimedout = 110
