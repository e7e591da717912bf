-- ===== src/Risk.antt =====
-- The package polytrader/risk: the data of a risk check, the nine policies, the engine that runs
-- them, and the component that guards the way from proposals to approved orders.
pub mod Models
pub mod Policies
pub mod Engine
pub mod Checker
mod Tests
