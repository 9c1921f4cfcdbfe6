-- ===== src/Risk.antt =====
-- trading/risk: limits, sizing, the final gate, and the planner of near-term hedges.
pub mod Context
pub mod Config
pub mod Exposure
pub mod Sizing
pub mod Signals
pub mod Intent
pub mod Decision
pub mod Gate
pub mod Assignment
pub mod Drafts
pub mod Planner
pub mod Samples
mod Tests
