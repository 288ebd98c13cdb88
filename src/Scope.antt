-- ===== src/Scope.antt =====
-- Who may assign work to whom: `_assignment_scope` and its helpers of negotium/app/api/_shared.py.
pub mod Departments
pub mod Assignment
pub mod Below
pub mod Total
pub mod InScope
mod Tests
