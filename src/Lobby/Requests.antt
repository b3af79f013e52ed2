-- ===== src/Lobby/Requests.antt =====
-- `logout_req`, `login_req` and `create_role_req` of src/game/lobby.cpp, with `Ssmgr::detach` of
-- src/core/ssmgr.h.
use Prim.Native.String.{String}
use uno_server.Common.{
  ℕ, Bool, true, false, Option, none, some, ltb, if◌then◌else◌, not, Outcome, ok, ◌>>=◌,
}
use uno_server.Session.Types.{SessionState, set_state}
use uno_server.Session.Ssmgr.{find_session, attach_session, on_disconnect}
use uno_server.Lobby.Types.{
  LobbyCode, Said, DbCall, Payload, Library, Lobby, load_role_req, logout_ntf, login_rsp, say,
  call_db, on_session,
}

-- The socket library's `close` runs the listener of `onClose`, so `on_disconnect` follows whether
-- the socket is still there or not. The event it sends has no listener that hears it.
unfoldable pub detach : ℕ → String → Lobby → Lobby
detach sid reason l =
    let l1 = say sid (logout_ntf reason) l in record l1 { ssmgr = (on_disconnect sid l1.ssmgr).1 }

unfoldable pub logout_req : ℕ → Lobby → Lobby
logout_req sid l = detach sid "ok" l

-- A session that has the uid already is thrown out.
unfoldable pub kick_old : ℕ → Lobby → Lobby
kick_old uid l = elim (find_session uid l.ssmgr) [ none ↦ l | some old ↦ detach old "kick-out" l ]

unfoldable pub admit : ℕ → Payload → Lobby → Outcome Lobby
admit sid p l = do
  let l1 = kick_old p.uid l
  m ← attach_session sid p.uid p.username p.email l1.ssmgr
  ok (
      call_db (load_role_req p.uid)
        (on_session sid (set_state SessionState.authed) (record l1 { ssmgr = m })))

unfoldable pub is_connected : SessionState → Bool
is_connected SessionState.connected = true
is_connected SessionState.authed = false
is_connected SessionState.create_role = false
is_connected SessionState.create_role_wait = false
is_connected SessionState.logged = false
is_connected SessionState.gaming = false

unfoldable pub login_req : Library → ℕ → String → Lobby → Outcome Lobby
login_req lib sid token l =
    if is_connected (l.ssmgr.store sid).state
    then elim (lib.verify token) [
      | none ↦ ok (say sid (login_rsp LobbyCode.api_bad_token) l)
      | some p ↦ admit sid p l
    ]
    else ok (say sid (login_rsp LobbyCode.api_invalid_call) l)

unfoldable pub is_creating : SessionState → Bool
is_creating SessionState.create_role = true
is_creating SessionState.connected = false
is_creating SessionState.authed = false
is_creating SessionState.create_role_wait = false
is_creating SessionState.logged = false
is_creating SessionState.gaming = false

-- The tests of a nick, with what the first one that fails answers.
unfoldable pub check_nick : Library → String → Option LobbyCode
check_nick lib nick =
    if ltb 10 (lib.bytes nick)
    then some LobbyCode.api_nick_too_long
    else if ltb (lib.bytes nick) 3
    then some LobbyCode.api_nick_too_short
    else if not (lib.matches nick)
    then some LobbyCode.api_nick_invalid
    else none

unfoldable pub create_role_req : Library → ℕ → String → Lobby → Lobby
create_role_req lib sid nick l =
    let ask = DbCall.create_role_req (l.ssmgr.store sid).uid nick in
    if is_creating (l.ssmgr.store sid).state
    then elim (check_nick lib nick) [
      | some code ↦ say sid (Said.create_role_rsp code) l
      | none ↦ on_session sid (set_state SessionState.create_role_wait) (call_db ask l)
    ]
    else say sid (Said.create_role_rsp LobbyCode.api_invalid_call) l
