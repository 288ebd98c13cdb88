-- ===== src/Agents.antt =====
-- negotium/agents/graph.py: the pipeline of PM, Developer and Reviewer.
pub mod Graph
pub mod Rounds
pub mod Compiled
mod Tests
