-- ===== src/Pnl.antt =====
-- trading/portfolio/pnl.py: profit and loss of stocks from their fills. Times are whole microseconds. Errors are
-- values that name the text of the exception and what it shows.
pub mod Replay
pub mod Validation
pub mod Accounts
pub mod Window
pub mod Agreement
pub mod Boundary
mod Tests
