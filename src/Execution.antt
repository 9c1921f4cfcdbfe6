-- ===== src/Execution.antt =====
-- trading/execution: how decisions on stocks become paper orders and how each attempt is accounted for.
pub mod Attempts
pub mod Store
pub mod Stock
pub mod Reconcile
pub mod Fallback
pub mod Gate
pub mod Audit
pub mod Ledger
mod Tests
