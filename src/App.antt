-- ===== src/App.antt =====
-- components/smoker_app: the application that owns all mutable control state.
pub mod Commands
pub mod State
pub mod Queue
pub mod Session
pub mod Handlers
pub mod Drain
pub mod Probes
pub mod Tick
pub mod Invariant
pub mod Boot
pub mod Reach
pub mod Snapshot
