-- ===== src/Gates.antt =====
-- The Trifecta gate (backend/src/awf/gates): findings, the verdict, and the node's body.
pub mod Findings
pub mod Artifacts
pub mod Node
