-- ===== src/Firewall.antt =====
-- negotium/app/services/context_firewall_service.py: what may leave for which language model.
pub mod Policy
pub mod Scan
pub mod Decision
pub mod Levels
pub mod Verdicts
pub mod Redaction
pub mod Context
pub mod Outgoing
mod Tests
