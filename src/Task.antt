-- ===== src/Task.antt =====
-- The tasks of the program: src/trader/task/.
pub mod Dataset
pub mod UpdateKlines
