-- ===== src/Room.antt =====
-- src/game/room.h and room.cpp: a room and the game played in it.
pub mod Types
pub mod Random
pub mod Notify
pub mod Cursor
pub mod Heap
pub mod Rules
pub mod Deal
pub mod Over
pub mod Play
pub mod Leave
pub mod Start
pub mod Update
pub mod Laws
