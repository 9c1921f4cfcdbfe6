-- ===== src/StockBroker.antt =====
-- trading/brokers/paper_stock.py: the paper stock broker.
pub mod Records
pub mod Store
pub mod Orders
pub mod Polling
pub mod Ledger
pub mod Idempotency
pub mod Posts
mod Tests
