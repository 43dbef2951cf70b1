-- ===== src/Building.antt =====
-- agent-core/src/maid_agent/building: blueprints, the DSL that makes them, and their execution.
pub mod Models
pub mod Line
pub mod Dsl
pub mod Planner
pub mod Checkpoint
pub mod Reserve
pub mod Executor
