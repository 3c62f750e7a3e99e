-- ===== src/Reasoning/Decompose.antt =====
-- internal/reasoning/decompose.go: the mode of subtasks.
pub mod Planner
pub mod Planned
pub mod Subtasks
pub mod Synthesis
