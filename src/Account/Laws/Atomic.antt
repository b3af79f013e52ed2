-- ===== src/Account/Laws/Atomic.antt =====
-- What the calls of src/core/db.h and src/sql/mysql.cpp leave alone: questions, and calls that throw.
use uno_server.Common.{Bool, true, false, ◌≡◌, Outcome, ok, fault}
use uno_server.Queue.Background.{BackResult, value, exception}
use uno_server.Account.Tables.{Db, Query}
use uno_server.Account.Users.{has_uid}
use uno_server.Account.Agent.{DbCall}

-- The same rows in both tables.
pub record SameRows (db db' : Db) : Type 0 where
  pub users : db'.users ≡ db.users
  pub players : db'.players ≡ db.players

-- What has to be so of a result: of every one, or of an exception only.
data Demand : Type 0 where
  always on_exception : Demand

Meets : {A : Type 0} → Demand → Db → Outcome (BackResult A × Db) → Type 0
Meets d db (fault e) = Unit
Meets d db (ok (exception, db')) = SameRows db db'
Meets Demand.always db (ok (value a, db')) = SameRows db db'
Meets Demand.on_exception db (ok (value a, db')) = Unit

Leaves : {A : Type 0} → Demand → Query A → Type 0
unfolding Meets
Leaves d q = (db : Db) → Meets d db (q db)

-- The calls that write; the others ask.
unfoldable pub asks : DbCall → Bool
asks (DbCall.create_user name password email) = false
asks (DbCall.update_login_info uid ip) = false
asks (DbCall.update_email uid email) = false
asks (DbCall.update_password uid password) = false
asks (DbCall.create_role uid nickname) = false
asks (DbCall.save_role uid data_text summary) = false
asks (DbCall.has_username name) = true
asks (DbCall.has_uid uid) = true
asks (DbCall.find_uid_by_name name) = true
asks (DbCall.validate_password name password) = true
asks (DbCall.query_user name) = true
asks (DbCall.has_role uid) = true
asks (DbCall.has_nickname name) = true
asks (DbCall.load_role uid) = true
asks (DbCall.load_summary uid) = true

demand_of : Bool → Demand
demand_of true = Demand.always
demand_of false = Demand.on_exception
