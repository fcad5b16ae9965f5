-- ===== src/Bits.antt =====
-- `&` and `|` of unsigned words at variables.
pub mod Step
pub mod Join
pub mod Split
pub mod Cut
