-- ===== src/Manager.antt =====
-- `class RoomManager` of src/game/room.h and room.cpp: the rooms and the requests of the clients.
pub mod Answers
pub mod Types
pub mod Guard
pub mod Create
pub mod Enter
pub mod Leave
pub mod Seats
pub mod Kick
pub mod Game
pub mod Presence
pub mod Events
pub mod Update
pub mod Laws
