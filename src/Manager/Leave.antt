-- ===== src/Manager/Leave.antt =====
-- `leave_room_req` of src/game/room.cpp and `clean_room` of src/game/room.h.
use uno_server.Common.{
  ℕ, Bool, true, false, Option, none, some, List, ◌==◌, if◌then◌else◌, ℤ, pos, negsuc, erase,
  lookup, Outcome, ok, ◌>>=◌,
}
use uno_server.Stater.Types.{LeftReason}
use uno_server.Session.Types.{Session, SessionState, set_state}
use uno_server.Room.Types.{Room, GameState}
use uno_server.Room.Random.{Random}
use uno_server.Room.Leave.{game_player_leave}
use uno_server.Manager.Answers.{ErrCode, leave_room_rsp}
use uno_server.Manager.Types.{Server, answer, on_session, find_room, run_room}
use uno_server.Manager.Guard.{plays_in}
use uno_server.Manager.Enter.{forget_room}

unfoldable pub empty_gone : ℕ → List (ℕ × Room) → Option Room → List (ℕ × Room)
empty_gone id rooms none = rooms
empty_gone id rooms (some r) = if r.curr_players == 0 then erase id rooms else rooms

-- `clean_room`; the source calls it for a room that is there.
unfoldable pub clean_room : ℕ → Server → Server
unfolding empty_gone
clean_room id s = record s { m_rooms = empty_gone id s.m_rooms (lookup id s.m_rooms) }

-- The states in which nobody leaves.
unfoldable pub is_dealing : GameState → Bool
is_dealing GameState.idle = false
is_dealing GameState.dealing = true
is_dealing GameState.dealing_dealer = true
is_dealing GameState.select_first_card = true
is_dealing GameState.wait_player = false

-- Back to the lobby.
unfoldable pub out_of_room : Session → Session
out_of_room ss = set_state SessionState.logged (forget_room ss)

unfoldable pub left : ℕ → Server → Server
left sid s = answer sid (leave_room_rsp ErrCode.ok) (on_session sid out_of_room s)

unfoldable pub leave_found : Random → Server → ℕ → ℕ → ℕ → Option Room → Outcome Server
leave_found R s sid uid id none = ok (left sid s)
leave_found R s sid uid id (some r) =
    let done = (do
      s1 ← run_room id (λ w. game_player_leave R w uid LeftReason.normal) r s
      ok (left sid (clean_room id s1))) in
    if is_dealing r.game_state
    then ok (answer sid (leave_room_rsp ErrCode.api_room_cannot_leave_at_this_time) s)
    else done

unfoldable pub leave_room : Random → Server → ℕ → ℕ → ℤ → Outcome Server
unfolding leave_found
leave_room R s sid uid (pos id) = leave_found R s sid uid id (find_room (pos id) s.m_rooms)
leave_room R s sid uid (negsuc k) = ok (left sid s)

unfoldable pub leave_room_req : Random → Server → ℕ → ℕ → ℤ → Outcome Server
unfolding leave_room
leave_room_req R s sid uid room_id =
    if plays_in (s.ssmgr.store sid) room_id
    then leave_room R s sid uid room_id
    else ok (answer sid (leave_room_rsp ErrCode.api_invalid_call) s)
