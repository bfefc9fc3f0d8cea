-- ===== src/Workflow.antt =====
-- backend/src/awf/workflow: definitions, the engine's loop, and the executors of the nodes.
pub mod Nodes
pub mod Definition
pub mod Templates
pub mod Attempts
pub mod Engine
pub mod Children
pub mod Handoff
pub mod Mapping
