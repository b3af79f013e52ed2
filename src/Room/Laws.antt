-- ===== src/Room/Laws.antt =====
-- What the functions of src/game/room.cpp guarantee.
pub mod Quiet
pub mod Turn
pub mod Piles
pub mod Draw
pub mod Dealt
pub mod Table
pub mod Dealing
pub mod Report
pub mod Auto
pub mod Waiting
pub mod Seats
pub mod Leaving
pub mod Starting
pub mod Legal
pub mod Check
pub mod Ending
pub mod Playing
pub mod Round
pub mod CardPlay
pub mod PlayCall
pub mod Kept
