-- ===== src/Manager/Enter.antt =====
-- `enter_room_req` of src/game/room.cpp.
use uno_server.Common.{
  ℕ, suc, Bool, ◌&&◌, Option, none, some, [], ◌∷◌, ◌++◌, leb_ℤ, if◌then◌else◌, ℤ, pos, negsuc,
  ◌==ℤ◌, insert, contains, Outcome, ok, ◌>>=◌,
}
use uno_server.Session.Types.{Session, SessionState, is_logged, set_state, set_dirty}
use uno_server.Room.Types.{Room, get_snapshot, get_player_snapshot}
use uno_server.Room.Notify.{Event, broadcast_event}
use uno_server.Room.Leave.{is_playing}
use uno_server.Manager.Answers.{ErrCode, enter_room_rsp}
use uno_server.Manager.Types.{Server, answer, on_session, find_room, run_room}
use uno_server.Manager.Create.{new_player, into_room}

-- `data["room_id"] = -1; ss->set_dirty();`
unfoldable pub forget_room : Session → Session
forget_room ss = set_dirty (record ss { room_id = negsuc 0 })

unfoldable pub refuse_enter : ErrCode → Server → ℕ → Outcome Server
refuse_enter code s sid = ok (answer sid (enter_room_rsp code none) s)

-- The room that a player comes back to.
unfoldable pub back_into : Server → ℕ → ℕ → Option Room → Outcome Server
unfolding refuse_enter
back_into s sid uid none =
    refuse_enter ErrCode.api_cannot_reenter (on_session sid forget_room s) sid
back_into s sid uid (some r) =
    if contains uid r.players
    then (do
      snapshot ← get_snapshot r (some uid)
      ok (
          answer sid (enter_room_rsp ErrCode.ok (some snapshot))
            (on_session sid (set_state SessionState.gaming) s)))
    else refuse_enter ErrCode.api_cannot_reenter (on_session sid forget_room s) sid

unfoldable pub re_enter_room : Server → ℕ → ℕ → ℤ → Outcome Server
unfolding back_into refuse_enter
re_enter_room s sid uid room_id =
    if room_id ==ℤ (s.ssmgr.store sid).room_id
    then back_into s sid uid (find_room room_id s.m_rooms)
    else refuse_enter ErrCode.api_invalid_call s sid

-- The player takes the last seat.
unfoldable pub join : ℕ → Session → Room → Room
join uid ss r = record r {
  players = insert uid (new_player ss) r.players;
  curr_players = suc r.curr_players;
  seq = r.seq ++ uid ∷ [];
}

-- The others learn of the player after the answer.
unfoldable pub take_seat : Server → ℕ → ℕ → ℕ → Room → Outcome Server
take_seat s sid uid id r = do
  let r1 = join uid (s.ssmgr.store sid) r
  let s1 = on_session sid (into_room id) (record s { m_rooms = insert id r1 s.m_rooms })
  snapshot ← get_snapshot r1 (some uid)
  let s2 = answer sid (enter_room_rsp ErrCode.ok (some snapshot)) s1
  joined ← get_player_snapshot r1 uid
  run_room id (λ w. ok (broadcast_event (some uid) (Event.player_joined joined) w)) r1 s2

unfoldable pub first_enter : Server → ℕ → ℕ → ℕ → Option Room → Outcome Server
unfolding refuse_enter
first_enter s sid uid id none = refuse_enter ErrCode.api_room_not_found s sid
first_enter s sid uid id (some r) =
    let seat_taken = take_seat s sid uid id r in
    if is_playing r.state
    then refuse_enter ErrCode.api_room_is_in_game s sid
    else if leb_ℤ r.max_players (pos r.curr_players)
    then refuse_enter ErrCode.api_room_is_full s sid
    else if contains uid r.players
    then refuse_enter ErrCode.api_invalid_call s sid
    else seat_taken

unfoldable pub enter_room : Server → ℕ → ℕ → ℤ → Outcome Server
unfolding first_enter refuse_enter
enter_room s sid uid (pos id) = first_enter s sid uid id (find_room (pos id) s.m_rooms)
enter_room s sid uid (negsuc k) = refuse_enter ErrCode.api_room_not_found s sid

-- A session that is not in the lobby is refused, and forgets the room it came back for.
unfoldable pub enter_room_req : Server → ℕ → ℕ → ℤ → Bool → Outcome Server
unfolding refuse_enter
enter_room_req s sid uid room_id re_enter =
    let ss = s.ssmgr.store sid in
    if is_logged ss.state
    then (if re_enter then re_enter_room s sid uid room_id else enter_room s sid uid room_id)
    else refuse_enter ErrCode.api_invalid_call
        (if re_enter && (ss.room_id ==ℤ room_id) then on_session sid forget_room s else s) sid
