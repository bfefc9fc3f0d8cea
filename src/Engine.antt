-- ===== src/Engine.antt =====
-- backend/src/awf/engine: runs, steps, their execution and recovery.
pub mod Run
pub mod Executor
pub mod Recovery
