-- ===== src/Orchestrator.antt =====
-- internal/orchestrator: the routing of requests for the model "auto" and the inventory of models.
pub mod Classifier
pub mod Router
pub mod Lookup
pub mod Candidates
pub mod Choose
pub mod Explain
pub mod Inventory
mod Tests
