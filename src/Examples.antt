-- ===== src/Examples.antt =====
-- The theorems at concrete inputs: the pixel matrix, the acquisition, the session, the configuration,
-- the emulated readout, and its daemon.
mod Matrix
mod Stream
mod Link
mod Setup
mod Emulator
mod Simulator
