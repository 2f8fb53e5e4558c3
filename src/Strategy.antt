-- ===== src/Strategy.antt =====
-- The trade life cycle and the signal router of strategy/.
pub mod Context
pub mod Engine
pub mod Registry
pub mod Router
pub mod Adapter
pub mod Exit
pub mod StopRisk
