-- ===== src/Patch.antt =====
-- negotium/archive/patch_execution.py, negotium/archive/patch_runs.py and
-- negotium/app/services/patch_execution_service.py.
pub mod Texts
pub mod Files
pub mod Attempts
pub mod Runs
pub mod Policy
pub mod Commands
pub mod Execution
pub mod Untouched
pub mod Applied
pub mod Branches
pub mod Typed
pub mod Listing
pub mod Events
mod Tests
