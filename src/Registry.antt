-- ===== src/Registry.antt =====
-- The registry objects that the engine reads.
pub mod Capability
pub mod Index
pub mod Resolve
pub mod Profile
