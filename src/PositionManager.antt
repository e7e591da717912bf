-- ===== src/PositionManager.antt =====
-- polytrader/position_manager and polytrader/platform/performance.py: what is held, what was
-- closed, and with which profit. `Outcomes` keeps the closed positions, `PerStrategy` the positions
-- of each strategy, `Paper` is the manager of paper trading.
pub mod Outcomes
pub mod PerStrategy
pub mod Paper
pub mod Live
mod Tests
