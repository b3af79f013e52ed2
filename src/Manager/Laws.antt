-- ===== src/Manager/Laws.antt =====
-- What holds of the room manager.
pub mod Ids
pub mod Guards
pub mod Invariant
pub mod Writes
pub mod Times
pub mod Rooms
pub mod Waiting
pub mod Arriving
pub mod Defects
pub mod Games
pub mod Starts
pub mod Playing
pub mod Leaving
pub mod Emptying
pub mod Going
pub mod Reach
