-- ===== src/Room/Update.antt =====
-- `game_update` of src/game/room.cpp: what a tick does to a room. Whether an empty room is then
-- removed is the room manager's part.
mod Dealing
mod Waiting
unfoldable pub use Dealing.*
unfoldable pub use Waiting.*
