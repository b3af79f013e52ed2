-- ===== src/Lobby/Answers.antt =====
-- `load_role_rsp` and `create_role_rsp` of src/game/lobby.cpp, with what the agent of
-- src/game/dbagent.h makes of the database's answers.
use Prim.Native.String.{String}
use uno_server.Common.{ℕ, Bool, true, false, Option, none, some, ℤ}
use uno_server.Session.Types.{Session, SessionState, set_state, attach_data}
use uno_server.Session.Ssmgr.{find_session}
use uno_server.Queue.Background.{BackResult, value, exception}
use uno_server.Lobby.Types.{
  LobbyCode, Said, BaseData, Library, Lobby, load_role_req, login_rsp, logged_in, create_role_ntf,
  say, call_db, on_session,
}

-- A role of the database: the nick, and the `room_id` of its data, if there is one.
pub record Role : Type 0 where
  pub nick : String
  pub room_id : Option ℤ

-- The agent's callback of `load_role_req`: a null row is no role.
unfoldable pub loaded : BackResult (Option Role) → LobbyCode × Role
loaded (value none) = (LobbyCode.db_not_exists, record { nick = ""; room_id = none })
loaded (value (some role)) = (LobbyCode.ok, role)
loaded exception = (LobbyCode.api_db_error, record { nick = ""; room_id = none })

-- The agent's callback of `create_role_req`: whether the nick is in use.
unfoldable pub created : BackResult Bool → LobbyCode
created (value true) = LobbyCode.api_nick_in_use
created (value false) = LobbyCode.ok
created exception = LobbyCode.api_db_error

unfoldable pub get_base_data : Session → BaseData
get_base_data ss = record {
  uid = ss.uid;
  name = ss.name;
  nick = ss.nick;
  email = ss.email;
  room_id = ss.room_id;
}

-- The session gets its role; the event that follows is heard by nobody.
unfoldable pub enter_lobby : Library → ℕ → ℕ → Role → Lobby → Lobby
enter_lobby lib sid uid role l =
    let l1 =
      on_session sid (λ ss. set_state SessionState.logged (attach_data role.nick role.room_id ss))
        l in
    let ss = l1.ssmgr.store sid in
    say sid (logged_in (lib.sign uid ss.name ss.email) (get_base_data ss)) l1

unfoldable pub load_answer : Library → ℕ → ℕ → LobbyCode → Role → Lobby → Lobby
load_answer lib sid uid LobbyCode.db_not_exists role l =
    on_session sid (set_state SessionState.create_role) (say sid create_role_ntf l)
load_answer lib sid uid LobbyCode.ok role l = enter_lobby lib sid uid role l
load_answer lib sid uid _ role l = say sid (login_rsp LobbyCode.api_db_error) l

unfoldable pub load_role_rsp : Library → LobbyCode → Role → ℕ → Lobby → Lobby
load_role_rsp lib ret role uid l = elim (find_session uid l.ssmgr) [
  | none ↦ l
  | some sid ↦ load_answer lib sid uid ret role l
]

-- Back to the choice of a nick.
unfoldable pub choose_again : ℕ → LobbyCode → Lobby → Lobby
choose_again sid code l =
    say sid (Said.create_role_rsp code) (on_session sid (set_state SessionState.create_role) l)

unfoldable pub create_answer : ℕ → ℕ → LobbyCode → Lobby → Lobby
create_answer sid uid LobbyCode.api_nick_in_use l = choose_again sid LobbyCode.api_nick_in_use l
create_answer sid uid LobbyCode.ok l =
    call_db (load_role_req uid) (
      on_session sid (set_state SessionState.authed)
        (say sid (Said.create_role_rsp LobbyCode.ok) l))
create_answer sid uid _ l = choose_again sid LobbyCode.api_db_error l

unfoldable pub create_role_rsp : LobbyCode → ℕ → Lobby → Lobby
create_role_rsp ret uid l = elim (find_session uid l.ssmgr) [
  | none ↦ l
  | some sid ↦ create_answer sid uid ret l
]
