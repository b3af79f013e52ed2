-- ===== src/Account/Agent.antt =====
-- `class IDataBase` of src/core/db.h: its calls, done by `MysqlAgent`, at once or as a task of the
-- background worker; and the task of `create_role_req` of src/game/dbagent.h.
use uno_server.Common.{ℕ, Bool, true, false, Option, Outcome, ok, fault}
use uno_server.Queue.Background.{BackResult, exception, Background, submit}
use uno_server.Account.Text.{Bytes}
use uno_server.Account.Tables.{Db, DbLibrary, Query, pure, ◌>>=◌, ◌>>◌}
use uno_server.Account.Users.{
  UserInfo, users_has_username, users_has_uid, users_find_uid_by_name, users_create_user,
  users_validate_password, users_query_user, users_update_login_info, users_update_email,
  users_update_password,
}
use uno_server.Account.Players.{
  RoleInfo, uno_game_players_has_role, uno_game_players_has_nickname, uno_game_players_create_role,
  uno_game_players_load_role, uno_game_players_save_role, uno_game_players_load_summary,
}

-- The calls with their arguments.
pub data DbCall : Type 0 where
  has_username : Bytes → DbCall
  has_uid : ℕ → DbCall
  find_uid_by_name : Bytes → DbCall
  create_user : Bytes → Bytes → Bytes → DbCall
  validate_password : Bytes → Bytes → DbCall
  query_user : Bytes → DbCall
  update_login_info : ℕ → Bytes → DbCall
  update_email update_password : ℕ → Bytes → DbCall
  has_role : ℕ → DbCall
  has_nickname : Bytes → DbCall
  create_role : ℕ → Bytes → DbCall
  load_role : ℕ → DbCall
  save_role : ℕ → Bytes → Bytes → DbCall
  load_summary : ℕ → DbCall

-- What a call or a task returns; the last is what `internalLogin` does, an error code or a token.
pub data DbValue : Type 0 where
  nothing : DbValue
  flag : Bool → DbValue
  number : ℕ → DbValue
  user : Option UserInfo → DbValue
  role : Option RoleInfo → DbValue
  text : Option Bytes → DbValue
  token : Option Bytes → DbValue

abbrev returns : {A : Type 0} → (A → DbValue) → Query A → Query DbValue
returns f q = q >>= λ a. pure (f a)

-- The blocking call.
unfoldable pub perform : DbLibrary → DbCall → Query DbValue
unfolding ◌>>=◌
perform lib (has_username name) = returns flag (users_has_username lib name)
perform lib (has_uid uid) = returns flag (users_has_uid lib uid)
perform lib (find_uid_by_name name) = returns number (users_find_uid_by_name lib name)
perform lib (create_user name password email) =
    returns (λ _. nothing) (users_create_user lib name password email)
perform lib (validate_password name password) =
    returns flag (users_validate_password lib name password)
perform lib (query_user name) = returns user (users_query_user lib name)
perform lib (update_login_info uid ip) = returns (λ _. nothing) (users_update_login_info lib uid ip)
perform lib (update_email uid email) = returns (λ _. nothing) (users_update_email lib uid email)
perform lib (update_password uid password) =
    returns (λ _. nothing) (users_update_password lib uid password)
perform lib (has_role uid) = returns flag (uno_game_players_has_role lib uid)
perform lib (has_nickname name) = returns flag (uno_game_players_has_nickname lib name)
perform lib (create_role uid nickname) =
    returns (λ _. nothing) (uno_game_players_create_role lib uid nickname)
perform lib (load_role uid) = returns role (uno_game_players_load_role lib uid)
perform lib (save_role uid data_text summary) =
    returns (λ _. nothing) (uno_game_players_save_role lib uid data_text summary)
perform lib (load_summary uid) = returns text (uno_game_players_load_summary lib uid)

-- A query as a task. An assertion that fails in a task stops the process, which is kept in place of
-- the tables.
unfoldable pub as_task : Query DbValue → Outcome Db → BackResult DbValue × Outcome Db
as_task q (fault e) = (exception, fault e)
as_task q (ok db) = elim (q db) [ fault e ↦ (exception, fault e) | ok (r, db1) ↦ (r, ok db1) ]

-- The call with a callback.
unfoldable pub submit_call :
    {C : Type 0}
    → DbLibrary
    → DbCall
    → C
    → Background (Outcome Db) DbValue C
    → Background (Outcome Db) DbValue C
unfolding perform as_task submit
submit_call lib call callback bg =
    submit (record { task = as_task (perform lib call); callback = callback }) bg

-- The task of `create_role_req`: whether the nick is in use.
unfoldable pub create_role_task : DbLibrary → ℕ → Bytes → Query Bool
unfolding ◌>>=◌ ◌>>◌
create_role_task lib uid nick = do
  exists ← uno_game_players_has_nickname lib nick
  elim exists [ true ↦ pure true | false ↦ uno_game_players_create_role lib uid nick >> pure false ]
