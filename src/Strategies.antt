-- ===== src/Strategies.antt =====
-- polytrader/strategies: the two strategies and what they promise.
pub mod Threshold
pub mod Reversion
pub mod Lifecycle
pub mod Registry
mod Tests
