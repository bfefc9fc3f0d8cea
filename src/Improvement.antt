-- ===== src/Improvement.antt =====
-- The improvement proposals of backend/src/awf/improvement and the evaluation of their candidates.
pub mod Evaluation
pub mod Proposals
