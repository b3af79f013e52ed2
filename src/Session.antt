-- ===== src/Session.antt =====
-- src/core/session.h, ssmgr.h, ssmgr.cpp and EventEmitter.h: the sessions of the connected clients.
pub mod Types
pub mod Ssmgr
pub mod Emitter
pub mod Laws
