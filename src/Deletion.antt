-- ===== src/Deletion.antt =====
-- negotium/archive/deletion_requests.py and its handlers in negotium/app/api/memory.py.
pub mod Store
pub mod Handlers
pub mod Decisions
mod Tests
