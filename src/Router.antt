-- ===== src/Router.antt =====
-- src/core/router.h and the receipt of a message in src/core/ssmgr.cpp.
pub mod Types
pub mod Calls
pub mod Laws
