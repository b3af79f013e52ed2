-- ===== src/Manager/Laws/Defects.antt =====
-- Where the requests and the events of src/game/room.h and room.cpp miss what they are for.
use uno_server.Common.{
  ℕ, ◌<◌, ◌≡◌, inl, inr, refl, ◌∙◌, true, false, none, some, [], ◌∷◌, ◌++◌, arith, ◌==◌, ==_self,
  if◌then◌else◌, ℤ, pos, ◌-ℤ◌, leb_ℤ, ◌==ℤ◌, ==ℤ_iff, lookup, Outcome, ok, Bool-cases,
}
use uno_server.Session.Types.{
  SessionState, is_gaming, is_logged, time_min, sub_time, wrap_int64, set_dirty,
}
use uno_server.Session.Ssmgr.{on_disconnect, update_session_at}
use uno_server.Session.Emitter.{
  deduce, deduced, same_type, same_kind, same_signature, same_name, on, call_all, emit_as, emit,
}
use uno_server.Room.Types.{Room, Player}
use uno_server.Room.Random.{Random}
use uno_server.Manager.Answers.{reply_to, ErrCode, shuffle_room_seats_rsp, enter_room_rsp}
use uno_server.Manager.Types.{Server, answer, on_session}
use uno_server.Manager.Guard.{idle_only, any_state, plays_in, in_room}
use uno_server.Manager.Seats.{is_seat_cooldown, shuffle_room_seats, shuffle_room_seats_req}
use uno_server.Manager.Enter.{enter_room_req, refuse_enter, forget_room}
use uno_server.Manager.Events.{
  login_listener, logout_listener, registered, emit_login, emit_logout, disconnect,
}
use uno_server.Manager.Laws.Guards.{Admitted, room_request-Admitted}

-- The time since the start of the clock does not fit.
since_min : (t : ℕ) → t < 9223372036854775808 → leb_ℤ (sub_time (pos t) time_min) (pos 10000) ≡ true
unfolding sub_time wrap_int64 ◌-ℤ◌
since_min t h = ground arith

-- In a room whose seats were never shuffled the owner's request to shuffle them is refused for
-- coming too soon, at every time from the epoch of the clock on that 64 bits hold, and changes
-- nothing.
pub shuffle_room_seats_req-never :
    (R : Random) (s : Server) (sid uid id t : ℕ) (r : Room) (p : Player)
    → Admitted idle_only s sid id r
    → lookup uid r.players ≡ some p
    → r.owner ≡ uid
    → r.last_update_seat_time ≡ time_min
    → t < 9223372036854775808
    → shuffle_room_seats_req R (pos t) s sid uid (pos id)
      ≡ ok (answer sid (shuffle_room_seats_rsp ErrCode.api_room_update_seat_cooldown) s)
unfolding shuffle_room_seats_req shuffle_room_seats is_seat_cooldown
shuffle_room_seats_req-never R s sid uid id t r p a found own never h =
    let its : (r.owner == uid) ≡ true = rw own (==_self uid) in
    let soon : leb_ℤ (sub_time (pos t) r.last_update_seat_time) (pos 10000) ≡ true =
      rw never (since_min t h) in
    room_request-Admitted shuffle_room_seats_rsp idle_only (shuffle_room_seats R (pos t) sid uid) s
      sid uid id r p a found
    ∙ rw (its, soon) refl

-- Neither event reaches a listener: for every lobby listener, `login` and `logout` leave the rooms
-- and the sessions as they are, and a lost connection changes the table of sessions only.
pub events_unheard :
    (now : ℤ) (sid uid : ℕ) (lobby_logout : Server → Outcome Server) (s : Server)
    → let e = registered now sid uid lobby_logout in
      (emit_login e s ≡ ok s)
      × (emit_logout e s ≡ ok s)
      × (disconnect e sid s
          ≡ ok (
              if (on_disconnect sid s.ssmgr).0
              then record s { ssmgr = (on_disconnect sid s.ssmgr).1 }
              else s))
unfolding registered emit_login emit_logout disconnect login_listener logout_listener emit emit_as
    call_all deduced deduce same_signature same_kind same_type on same_name
events_unheard now sid uid lobby_logout s = elim (Bool-cases (on_disconnect sid s.ssmgr).0) [
  | inl e ↦ (refl, refl, rw e refl)
  | inr e ↦ (refl, refl, rw e refl)
]

-- A session that plays and asks to come back into its own room is answered with `api_invalid_call`,
-- the only packet that is sent, and loses its room: the rooms stay as they were, the session still
-- plays, and no request that names a room finds it.
pub enter_room_req-loses :
    (s : Server) (sid uid id : ℕ)
    → (s.ssmgr.store sid).state ≡ SessionState.gaming
    → (s.ssmgr.store sid).room_id ≡ pos id
    → (s' : Server) × (enter_room_req s sid uid (pos id) true ≡ ok s')
      × (s'.sent ≡ s.sent ++ reply_to sid (enter_room_rsp ErrCode.api_invalid_call none) ∷ [])
      × (s'.m_rooms ≡ s.m_rooms)
      × ((s'.ssmgr.store sid).state ≡ SessionState.gaming)
      × ((id' : ℕ) → in_room any_state s' sid (pos id') ≡ none)
unfolding enter_room_req refuse_enter on_session forget_room set_dirty answer update_session_at
    in_room plays_in ◌==ℤ◌ is_logged is_gaming
enter_room_req-loses s sid uid id g its =
    let out : is_logged (s.ssmgr.store sid).state ≡ false = rw g refl in
    let same : ((s.ssmgr.store sid).room_id ==ℤ pos id) ≡ true =
      (==ℤ_iff (s.ssmgr.store sid).room_id (pos id)).1 its in
    (
      answer sid (enter_room_rsp ErrCode.api_invalid_call none) (on_session sid forget_room s),
      rw out (rw same refl),
      refl,
      refl,
      rw (==_self sid) g,
      λ id'. rw (==_self sid) (rw g refl),
    )
