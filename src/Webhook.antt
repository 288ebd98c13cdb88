-- ===== src/Webhook.antt =====
-- negotium/adapters/ingestion/github_webhook.py.
pub mod Payload
pub mod Handler
pub mod Enqueued
mod Tests
