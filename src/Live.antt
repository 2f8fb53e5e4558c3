-- ===== src/Live.antt =====
-- Live trading: src/trader/live/.
pub mod MarketData
