-- ===== src/Execution.antt =====
-- polytrader/execution: pricing, fill models, throttling, the paper venue and the router.
pub mod Pricing
pub mod Throttle
pub mod Paper
pub mod Router
mod Tests
