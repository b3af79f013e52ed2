-- ===== src/Lobby/Laws/Creation.antt =====
-- The choice of a nick in src/game/lobby.cpp, with the database's answer to it.
use Prim.Native.String.{String}
use uno_server.Common.{ℕ, ◌≡◌, refl, Bool, true, false, none, some, [], ◌∷◌, ◌++◌, ==_self}
use uno_server.Session.Types.{SessionState, set_state}
use uno_server.Session.Ssmgr.{find_session, update_session_at}
use uno_server.Lobby.Types.{DbCall, Library, Lobby, load_role_req, say, call_db, on_session}
use uno_server.Lobby.Requests.{is_creating, check_nick, create_role_req}
use uno_server.Queue.Background.{BackResult, value, exception}
use uno_server.Lobby.Answers.{created, choose_again, create_answer, create_role_rsp}

-- After the database's answer: the role is there and is asked for, or a nick is chosen again.
abbrev pub Created : BackResult Bool → Lobby → ℕ → ℕ → Lobby → Type 0
Created (value false) l sid uid l' =
    ((l'.ssmgr.store sid).state ≡ SessionState.authed)
    × (l'.calls ≡ l.calls ++ load_role_req uid ∷ [])
Created (value true) l sid uid l' =
    ((l'.ssmgr.store sid).state ≡ SessionState.create_role) × (l'.calls ≡ l.calls)
Created exception l sid uid l' =
    ((l'.ssmgr.store sid).state ≡ SessionState.create_role) × (l'.calls ≡ l.calls)

create_role_rsp-Created :
    (l : Lobby) (sid uid : ℕ) (result : BackResult Bool)
    → find_session uid l.ssmgr ≡ some sid
    → Created result l sid uid (create_role_rsp (created result) uid l)
unfolding create_role_rsp created create_answer choose_again say call_db on_session set_state
    update_session_at
create_role_rsp-Created l sid uid (value true) f =
    rw (create_role_rsp, f) (rw (==_self sid) (refl, refl))
create_role_rsp-Created l sid uid (value false) f =
    rw (create_role_rsp, f) (rw (==_self sid) (refl, refl))
create_role_rsp-Created l sid uid exception f =
    rw (create_role_rsp, f) (rw (==_self sid) (refl, refl))

asked_for :
    (lib : Library) (l : Lobby) (sid : ℕ) (nick : String)
    → (l.ssmgr.store sid).state ≡ SessionState.create_role
    → check_nick lib nick ≡ none
    → create_role_req lib sid nick l
      ≡ on_session sid
          (set_state SessionState.create_role_wait)
          (call_db (DbCall.create_role_req (l.ssmgr.store sid).uid nick) l)
unfolding create_role_req is_creating
asked_for lib l sid nick start fine = rw (start, fine) refl

-- A session that may choose a nick and sends a proper one waits, with one call of the database. No
-- answer leaves it waiting: it goes on to load the new role, or chooses again when the nick is in
-- use or the database fails.
pub create_role_req-Created :
    (lib : Library) (l : Lobby) (sid uid : ℕ) (nick : String) (result : BackResult Bool)
    → (l.ssmgr.store sid).state ≡ SessionState.create_role
    → check_nick lib nick ≡ none
    → find_session uid l.ssmgr ≡ some sid
    → let l1 = create_role_req lib sid nick l in
      ((l1.ssmgr.store sid).state ≡ SessionState.create_role_wait)
      × (l1.calls ≡ l.calls ++ DbCall.create_role_req (l.ssmgr.store sid).uid nick ∷ [])
      × Created result l1 sid uid (create_role_rsp (created result) uid l1)
unfolding on_session call_db set_state update_session_at find_session
create_role_req-Created lib l sid uid nick result start fine f =
    rw (asked_for lib l sid nick start fine)
      (rw (==_self sid) refl, refl, create_role_rsp-Created _ sid uid result f)
