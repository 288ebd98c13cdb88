-- ===== src/Bus.antt =====
-- negotium/application/event_bus.py, and the consumer loop of negotium/application/orchestrator.py.
pub mod Queue
pub mod Consumer
pub mod Delivery
pub mod System
pub mod Deadlock
mod Tests
