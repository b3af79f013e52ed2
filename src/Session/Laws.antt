-- ===== src/Session/Laws.antt =====
-- What holds of the sessions.
pub mod Round
pub mod Removal
pub mod Saving
