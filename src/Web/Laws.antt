-- ===== src/Web/Laws.antt =====
-- Theorems on the pages of src/core/server.cpp with the tables behind them.
pub mod Turn
pub mod Login
pub mod Fields
pub mod Register
pub mod Roundtrip
pub mod Settings
pub mod Static
