-- ===== src/Cognition.antt =====
-- backend/src/awf/cognition and the persona that it renders.
pub mod Prompts
pub mod Personas
