-- ===== src/Manager/Game.antt =====
-- `start_game_req`, `game_play_card_req`, `game_deal_card_req`, `game_report_no_uno_req` and
-- `get_room_list_req` of src/game/room.cpp.
use uno_server.Common.{
  ℕ, Bool, true, false, not, ◌&&◌, ◌||◌, none, List, [], ◌∷◌, ◌==◌, ltb, if◌then◌else◌, ℤ, pos,
  leb_ℤ, length, Outcome, ok, ◌>>=◌,
}
use uno_server.Stater.Types.{DealReason}
use uno_server.Stater.Events.{StatCall}
use uno_server.Session.Ssmgr.{get_session_count}
use uno_server.Room.Types.{Room, PlayerMap, get_snapshot}
use uno_server.Room.Random.{Random}
use uno_server.Room.Notify.{World, Event, broadcast_event, stat_event}
use uno_server.Room.Leave.{is_playing}
use uno_server.Room.Deal.{game_player_deal_card, game_player_report_no_uno}
use uno_server.Room.Play.{game_player_card_play}
use uno_server.Room.Start.{game_start}
use uno_server.Manager.Answers.{
  ErrCode, RoomItem, Reply, start_game_rsp, game_play_card_rsp, game_deal_card_rsp,
  game_report_no_uno_rsp, get_room_list_rsp,
}
use uno_server.Manager.Types.{Server, answer, world_of, put_back, run_room}
use uno_server.Manager.Guard.{Action, idle_only, playing_only, room_request}

-- Everybody but the owner is ready.
unfoldable pub all_ready : ℕ → PlayerMap → Bool
all_ready uid [] = true
all_ready uid ((u, p) ∷ ps) = (u == uid || p.ready) && all_ready uid ps

-- What follows the answer: the news of the game, and its statistics.
unfoldable pub announce_start : World → Outcome World
announce_start w = do
  snapshot ← get_snapshot w.room none
  stat_event false StatCall.game_start (broadcast_event none (Event.game_start snapshot) w)

unfoldable pub begin_game : Random → ℕ → ℕ → Room → Server → Outcome Server
unfolding announce_start
begin_game R sid id r s = do
  w ← game_start R (world_of s r)
  run_room id announce_start w.room (answer sid (start_game_rsp ErrCode.ok) (put_back id w s))

unfoldable pub start_game : Random → ℕ → ℕ → Action
unfolding begin_game
start_game R sid uid id r p s =
    let begun = begin_game R sid id r s in
    if not (r.owner == uid)
    then ok (answer sid (start_game_rsp ErrCode.api_room_not_owner) s)
    else if ltb (length r.players) 2
    then ok (answer sid (start_game_rsp ErrCode.api_invalid_call) s)
    else if not (all_ready uid r.players)
    then ok (answer sid (start_game_rsp ErrCode.api_room_not_ready) s)
    else begun

unfoldable pub start_game_req : Random → Server → ℕ → ℕ → ℤ → Outcome Server
start_game_req R s sid uid room_id =
    room_request start_game_rsp idle_only (start_game R sid uid) s sid uid room_id

-- A call of the game that tells whether it was allowed, and the answer to it.
unfoldable pub game_call :
    (ErrCode → Reply) → ErrCode → (World → Outcome (Bool × World)) → ℕ → Action
game_call rsp refused call sid id r p s = do
  res ← call (world_of s r)
  ok (answer sid (rsp (if res.0 then ErrCode.ok else refused)) (put_back id res.1 s))

unfoldable pub game_play_card_req : Random → Server → ℕ → ℕ → ℤ → ℤ → Bool → ℤ → Outcome Server
game_play_card_req R s sid uid room_id c with_uno chg_color =
    room_request game_play_card_rsp playing_only
      (game_call game_play_card_rsp ErrCode.api_game_cannot_play_card
        (λ w. game_player_card_play R w uid c with_uno chg_color) sid)
      s sid uid room_id

unfoldable pub game_deal_card_req : Random → Server → ℕ → ℕ → ℤ → Outcome Server
game_deal_card_req R s sid uid room_id =
    room_request game_deal_card_rsp playing_only
      (game_call game_deal_card_rsp ErrCode.api_game_cannot_deal_card
        (λ w. game_player_deal_card R w uid 1 DealReason.normal none) sid)
      s sid uid room_id

unfoldable pub game_report_no_uno_req : Random → Server → ℕ → ℕ → ℤ → Outcome Server
game_report_no_uno_req R s sid uid room_id =
    room_request game_report_no_uno_rsp playing_only
      (game_call game_report_no_uno_rsp ErrCode.api_game_cannot_report_no_uno
        (λ w. game_player_report_no_uno R w uid) sid)
      s sid uid room_id

-- `room->state == Room::State::idle && room->curr_players <= room->max_players`
unfoldable pub is_joinable : Room → Bool
is_joinable r = not (is_playing r.state) && leb_ℤ (pos r.curr_players) r.max_players

unfoldable pub room_items : List (ℕ × Room) → List RoomItem
room_items [] = []
room_items ((room_id, r) ∷ rooms) =
    record {
      id = room_id;
      title = r.title;
      curr_players = r.curr_players;
      max_players = r.max_players;
      playing = is_playing r.state;
      joinable = is_joinable r;
    }
    ∷ room_items rooms

unfoldable pub get_room_list_req : Server → ℕ → Server
get_room_list_req s sid =
    answer sid (get_room_list_rsp ErrCode.ok (room_items s.m_rooms) (get_session_count s.ssmgr)) s
