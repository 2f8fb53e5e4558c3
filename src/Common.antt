-- ===== src/Common.antt =====
-- The helpers that the parts of the program share: src/trader/common/ and src/trader/utils/.
pub mod Interval
pub mod Duration
pub mod TimeRange
pub mod LogBuffer
