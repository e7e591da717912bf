-- ===== src/Oms.antt =====
-- polytrader/oms: the order management system.
pub mod Models
pub mod Fsm
pub mod Idempotency
pub mod Store
pub mod Core
mod Tests
