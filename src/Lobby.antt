-- ===== src/Lobby.antt =====
-- src/game/lobby.cpp and src/game/dbagent.h: how a session logs in and gets a role.
pub mod Types
pub mod Requests
pub mod Answers
pub mod Laws
