-- ===== src/Core.antt =====
-- components/smoker_core: the domain types and the pure rules of the controller.
pub mod Domain
pub mod Control
pub mod Safety
pub mod Timer
pub mod Values
