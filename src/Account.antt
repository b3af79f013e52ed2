-- ===== src/Account.antt =====
-- The accounts: src/sql/mysql.h, mysql.cpp behind the interface of src/core/db.h, src/util/ssl.h, and
-- the HTTP pages of src/core/server.cpp.
pub mod Text
pub mod Tables
pub mod Users
pub mod Players
pub mod Agent
pub mod Laws
