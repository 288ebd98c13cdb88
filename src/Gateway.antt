-- ===== src/Gateway.antt =====
-- negotium/adapters/llm/gateway.py: which provider answers a request.
pub mod Routing
pub mod Safety
mod Tests
