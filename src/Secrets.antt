-- ===== src/Secrets.antt =====
-- negotium/archive/secret_store.py.
pub mod Bytes
pub mod Sorted
pub mod Store
pub mod Masked
pub mod Streams
pub mod Vault
mod Json
mod Tests
