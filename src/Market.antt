-- ===== src/Market.antt =====
-- polytrader/store.py: the market data that the strategies and the portfolio read.
pub mod Pattern
pub mod Store
pub mod Composite
pub mod Refinement
mod Tests
