-- ===== src/Stater.antt =====
-- src/game/stater.h and stater.cpp: the statistics of a round.
pub mod Types
pub mod Events
pub mod Handlers
pub mod Display
pub mod Dispatch
pub mod Awards
