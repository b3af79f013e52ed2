-- ===== src/Lobby/Laws.antt =====
-- What holds of the lobby.
pub mod Login
pub mod Creation
