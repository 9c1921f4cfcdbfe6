-- ===== src/Selection.antt =====
-- trading/strategies/selector.py: which candidate of a ticker becomes a trade, and in which expression.
pub mod Expressions
pub mod Choice
pub mod Groups
pub mod Best
pub mod Plans
pub mod Ranking
mod Tests
