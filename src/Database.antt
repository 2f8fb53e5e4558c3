-- ===== src/Database.antt =====
-- The persistent collections: src/trader/database/.
pub mod Rows
pub mod ExecutionStates
pub mod Funds
pub mod Availability
