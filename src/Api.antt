-- ===== src/Api.antt =====
-- negotium/app/api: the guard in front of the handlers.
pub mod Outcome
pub mod Guard
pub mod Admission
pub mod Action
pub mod Schemas
pub mod Keeper
pub mod Views
pub mod Accounts
pub mod Members
pub mod Requests
pub mod Calls
pub mod Behind
pub mod Triples
pub mod Logged
pub mod Audited
pub mod Keeping
pub mod Hoare
pub mod Administrators
pub mod Membership
pub mod Refusals
pub mod Installed
pub mod Visits
pub mod Lasting
pub mod Setup
pub mod FirstAdmin
pub mod Approval
pub mod Logout
mod Runs
mod Faults
mod Tests
