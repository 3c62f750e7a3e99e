-- ===== src/Reasoning.antt =====
-- internal/reasoning: the executor of the reasoning modes.
pub mod Config
pub mod Records
pub mod Evaluation
pub mod Pruning
pub mod Contradictions
pub mod Geometry
pub mod Messages
pub mod Start
pub mod Tot
pub mod Mcts
pub mod Decompose
pub mod Agents
pub mod Execute
pub mod Kept
pub mod Calls
pub mod Answers
mod Tests
