-- ===== src/Auth.antt =====
-- negotium/archive/auth_store.py: password credentials, sessions and account requests.
pub mod Records
pub mod Passwords
pub mod Store
pub mod Documents
pub mod Sessions
pub mod Tokens
pub mod Logins
pub mod Requests
pub mod History
pub mod Credentials
pub mod Tests
