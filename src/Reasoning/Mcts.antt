-- ===== src/Reasoning/Mcts.antt =====
-- internal/reasoning/mcts.go: the search over reasoning paths.
pub mod Tree
pub mod Limits
pub mod Rollouts
pub mod Idle
pub mod Candidates
pub mod Synthesis
