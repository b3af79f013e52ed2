-- ===== src/Web.antt =====
-- The HTTP pages of src/core/server.cpp.
pub mod Types
pub mod Static
pub mod Login
pub mod Register
pub mod Settings
pub mod Laws
