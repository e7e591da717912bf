-- ===== src/Ops.antt =====
-- polytrader/ops: the switches that stop trading.
pub mod Control
pub mod Health
