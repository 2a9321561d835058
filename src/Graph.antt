-- ===== src/Graph.antt =====
-- backend/app/graph: the human-reviewed case workflow.
pub mod State
pub mod Nodes
pub mod Workflow
pub mod Runtime
pub mod Engine
pub mod Review
pub mod Tests
