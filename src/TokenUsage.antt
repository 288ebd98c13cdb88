-- ===== src/TokenUsage.antt =====
-- negotium/archive/token_usage.py: the token budget, per request, day and month.
pub mod Records
pub mod Store
pub mod Totals
pub mod Budget
mod Tests
