-- ===== src/Memory.antt =====
-- backend/src/awf/memory
pub mod Sessions
