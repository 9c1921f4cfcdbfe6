-- ===== src/OptionBroker.antt =====
-- trading/brokers/paper_option.py: the paper option broker, with the service or as a local simulation.
pub mod Records
pub mod Payloads
pub mod Orders
pub mod Book
pub mod Lasting
pub mod Polling
pub mod Filling
pub mod Refusals
mod Tests
