-- ===== src/Manager/Kick.antt =====
-- `room_kickout_player_req` of src/game/room.cpp.
use uno_server.Common.{ℕ, none, some, ◌==◌, if◌then◌else◌, ℤ, lookup, Outcome, ok, ◌>>=◌}
use uno_server.Stater.Types.{LeftReason}
use uno_server.Session.Types.{Session, SessionState, set_state, set_dirty}
use uno_server.Session.Ssmgr.{find_session}
use uno_server.Room.Types.{Room}
use uno_server.Room.Random.{Random}
use uno_server.Room.Notify.{Event, send_event}
use uno_server.Room.Leave.{game_player_leave}
use uno_server.Manager.Answers.{ErrCode, room_kickout_player_rsp}
use uno_server.Manager.Types.{Server, answer, on_session, world_of, put_back, run_room}
use uno_server.Manager.Guard.{Action, idle_only, room_request}
use uno_server.Manager.Leave.{clean_room}

-- What the request does to the session of the kicked player: the source sets the `room_id` of a
-- copy of the data, so the session keeps its own.
unfoldable pub kicked_session : Session → Session
kicked_session ss = set_state SessionState.logged (set_dirty ss)

unfoldable pub release : ℕ → Server → Server
release uid s = elim (find_session uid s.ssmgr) [
  | none ↦ s
  | some sid ↦ on_session sid kicked_session s
]

unfoldable pub kick_out : Random → ℕ → ℕ → ℕ → ℕ → Room → Server → Outcome Server
kick_out R sid uid be_kicked id r s = do
  let w = send_event be_kicked (some uid) Event.be_kicked (world_of s r)
  let s1 = release be_kicked (put_back id w s)
  s2 ← run_room id (λ w1. game_player_leave R w1 be_kicked LeftReason.kicked_by_owner) w.room s1
  ok (answer sid (room_kickout_player_rsp ErrCode.ok) (clean_room id s2))

unfoldable pub room_kickout_player : Random → ℕ → ℕ → ℕ → Action
unfolding kick_out
room_kickout_player R sid uid be_kicked id r p s =
    let kicked = kick_out R sid uid be_kicked id r s in
    if r.owner == uid
    then elim (lookup be_kicked r.players) [
      | none ↦ ok (answer sid (room_kickout_player_rsp ErrCode.api_room_player_not_found) s)
      | some _ ↦ kicked
    ]
    else ok (answer sid (room_kickout_player_rsp ErrCode.api_room_not_owner) s)

unfoldable pub room_kickout_player_req : Random → Server → ℕ → ℕ → ℤ → ℕ → Outcome Server
room_kickout_player_req R s sid uid room_id be_kicked =
    room_request room_kickout_player_rsp idle_only (room_kickout_player R sid uid be_kicked) s sid
      uid room_id
