-- ===== src/Indicators.antt =====
-- polytrader/indicators: rolling means, averages, ranges and candles.
pub mod Rolling
pub mod Lengths
pub mod Candles
mod Sorting
pub mod Bounds
mod Tests
