-- ===== src/Tests.antt =====
-- Runs of the model on concrete inputs, and the theorems at inputs that meet their hypotheses.
pub mod Demo
pub mod Core
pub mod App
pub mod Mailbox
pub mod Exchange
pub mod Transport
pub mod Flash
pub mod History
pub mod Firmware
pub mod Pid
