-- ===== src/Ksim.antt =====
-- tools/ksim: the daemon that puts the emulated readout on a network.
pub mod Args
pub mod Options
pub mod Daemon
pub mod Main
