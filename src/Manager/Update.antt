-- ===== src/Manager/Update.antt =====
-- `game_dismiss` and `update` of src/game/room.cpp, and `onUpdate` of src/core/server.cpp. What
-- `game_update` calls throws nothing but errors of the libraries below, so the model's tick never
-- gets to the dismissal, which stands by itself.
use uno_server.Common.{
  ℕ, Option, none, some, List, [], ◌∷◌, if◌then◌else◌, ℤ, pos, lookup, erase, keys, Outcome, ok,
  ◌>>=◌,
}
use uno_server.Session.Types.{Session, SessionState, set_state, set_dirty}
use uno_server.Session.Ssmgr
use uno_server.Session.Ssmgr.{find_session}
use uno_server.Room.Types.{Room}
use uno_server.Room.Random.{Random}
use uno_server.Room.Notify.{Event, broadcast_event}
use uno_server.Room.Over.{clear_game}
use uno_server.Room.Update.{game_update}
use uno_server.Room.Leave.{is_playing}
use uno_server.Manager.Types.{Server, on_session, world_of, put_back, run_room}
use uno_server.Manager.Guard.{plays_in}
use uno_server.Manager.Leave.{clean_room}

-- A session that plays in the room goes back to the lobby; its `room_id` stays.
unfoldable pub dismissed : ℕ → Session → Session
dismissed id ss = if plays_in ss (pos id) then set_state SessionState.logged (set_dirty ss) else ss

unfoldable pub release_all : ℕ → List ℕ → Server → Server
release_all id [] s = s
release_all id (uid ∷ uids) s =
    release_all id uids
      (elim (find_session uid s.ssmgr) [ none ↦ s | some sid ↦ on_session sid (dismissed id) s ])

-- The room is taken away before its players hear of it.
unfoldable pub game_dismiss : ℕ → Room → Server → Server
game_dismiss id r s =
    let r1 = clear_game none r in
    let s1 = release_all r1.id (keys r1.players) s in
    let s2 = put_back id (broadcast_event none Event.game_dismiss (world_of s1 r1)) s1 in
    record s2 { m_rooms = erase id s2.m_rooms }

unfoldable pub update_found : Random → ℤ → ℕ → Option Room → Server → Outcome Server
update_found R now id none s = ok s
update_found R now id (some r) s = do
  s1 ← run_room id (game_update R now) r s
  ok (if is_playing r.state then s1 else clean_room id s1)

-- The rooms one after the other; a tick adds no room and takes away its own at most.
unfoldable pub update_rooms : Random → ℤ → List ℕ → Server → Outcome Server
unfolding update_found
update_rooms R now [] s = ok s
update_rooms R now (id ∷ ids) s = do
  s1 ← update_found R now id (lookup id s.m_rooms) s
  update_rooms R now ids s1

unfoldable pub update : Random → ℤ → Server → Outcome Server
update R now s = update_rooms R now (keys s.m_rooms) s

-- `Server::onUpdate` of src/core/server.cpp: the tick of the rooms, then that of the sessions, with
-- the sessions that are to be saved.
unfoldable pub on_update : Random → ℤ → Server → Outcome (List ℕ × Server)
on_update R now s = do
  s1 ← update R now s
  done ← Ssmgr.update now s1.ssmgr
  ok (done.0, record s1 { ssmgr = done.1 })
