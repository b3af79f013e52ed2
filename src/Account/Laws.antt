-- ===== src/Account/Laws.antt =====
-- Theorems on src/sql/mysql.cpp and the pages of src/core/server.cpp.
pub mod Spelling
pub mod Rows
pub mod Invariant
pub mod Atomic
pub mod Kept
pub mod Working
