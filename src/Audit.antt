-- ===== src/Audit.antt =====
-- negotium/archive/audit_log.py.
pub mod Log
pub mod Recent
mod Tests
