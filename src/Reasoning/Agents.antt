-- ===== src/Reasoning/Agents.antt =====
-- internal/reasoning/multiagent.go: the mode of agents with roles.
pub mod Roles
pub mod Rounds
pub mod Discussion
pub mod Synthesis
