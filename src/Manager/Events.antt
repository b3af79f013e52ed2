-- ===== src/Manager/Events.antt =====
-- The listeners of `login` and `logout`, which the constructor in src/game/room.h and the one in
-- src/game/lobby.cpp register, and where the two events are sent.
use uno_server.Common.{ℕ, [], ◌∷◌, if◌then◌else◌, ℤ, Outcome, ok}
use uno_server.Session.Ssmgr.{on_disconnect}
use uno_server.Session.Emitter.{
  CppType, ParamKind, Argument, EventName, EventEmitter, Listener, on, emit,
}
use uno_server.Manager.Types.{Server}
use uno_server.Manager.Presence.{login, logout}

-- `[this](SessionPtr ss)`
unfoldable pub login_listener : ℕ → ℕ → Listener Server
login_listener sid uid = record {
  signature = ParamKind.by_value CppType.session_ptr ∷ [];
  callback = λ s. ok (login sid uid s);
}

-- `(SessionPtr ss, std::string reason)`
unfoldable pub logout_listener : (Server → Outcome Server) → Listener Server
logout_listener callback = record {
  signature = ParamKind.by_value CppType.session_ptr ∷ ParamKind.by_value CppType.string ∷ [];
  callback = callback;
}

-- The listeners for a session: the lobby's, which is an argument, and then the room manager's.
unfoldable pub registered : ℤ → ℕ → ℕ → (Server → Outcome Server) → EventEmitter Server
registered now sid uid lobby_logout =
    on EventName.logout (logout_listener (λ s. ok (logout now sid uid s))) (
      on EventName.login (login_listener sid uid)
        (on EventName.logout (logout_listener lobby_logout) (λ name. [])))

-- `evtcenter.emit("login", ss)` in `load_role_rsp`, where `ss` is a variable.
unfoldable pub emit_login : EventEmitter Server → Server → Outcome Server
emit_login e s = emit (Argument.variable CppType.session_ptr ∷ []) EventName.login e s

-- `evtcenter.emit("logout", session, reason)` in `on_disconnect`, where `reason` is const.
unfoldable pub emit_logout : EventEmitter Server → Server → Outcome Server
emit_logout e s =
    emit (Argument.variable CppType.session_ptr ∷ Argument.const_variable CppType.string ∷ [])
      EventName.logout e s

-- `Ssmgr::on_disconnect`, the event included.
unfoldable pub disconnect : EventEmitter Server → ℕ → Server → Outcome Server
disconnect e sid s =
    let removed = on_disconnect sid s.ssmgr in
    let told = emit_logout e (record s { ssmgr = removed.1 }) in if removed.0 then told else ok s
