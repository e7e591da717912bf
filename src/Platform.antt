-- ===== src/Platform.antt =====
-- polytrader/platform: the parts that other components share.
pub mod Supervisors
