-- ===== src/Access.antt =====
-- negotium/archive/access_control.py: users, roles, departments, positions and permissions.
pub mod Records
pub mod Defaults
pub mod Hierarchy
pub mod Store
pub mod Permissions
pub mod Documents
pub mod Walk
pub mod Forest
pub mod Users
pub mod Lockout
pub mod Distinct
pub mod Deciding
pub mod Recovery
pub mod Grants
pub mod Policies
mod Tests
