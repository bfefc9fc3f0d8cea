-- ===== src/Voice.antt =====
-- backend/src/awf/speech
pub mod Session
