-- ===== src/Approvals.antt =====
-- The decisions of an operator: how they are taken, and what waits for them.
pub mod Decide
pub mod Node
pub mod Machine
pub mod Lifecycle
