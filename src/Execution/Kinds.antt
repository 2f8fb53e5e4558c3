-- ===== src/Execution/Kinds.antt =====
-- The nine string enumerations of execution/models.py.
mod Intents
mod Outcomes
pub use Intents.*
pub use Outcomes.*
