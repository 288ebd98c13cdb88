-- ===== src/Volatile.antt =====
-- negotium/archive/volatile_memory.py.
pub mod Records
pub mod Store
pub mod Reading
pub mod Names
mod Tests
