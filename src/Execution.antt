-- ===== src/Execution.antt =====
-- The execution contracts shared by backtest and live modes: src/trader/execution/.
pub mod Payload
pub mod Enums
pub mod Kinds
pub mod Order
pub mod Risk
pub mod Outcome
pub mod Resolver
pub mod Semantics
pub mod Selection
pub mod State
