-- ===== src/Bus.antt =====
-- polytrader/events: the event bus (bus.py) and the event store (store.py).
pub mod EventStore
pub mod EventBus
mod Queues
pub mod Delivery
mod Tests
