-- ===== src/Analysis.antt =====
-- The analyzers of utils/operation_state.py.
pub mod Drawdown
