-- ===== src/Room/Over.antt =====
-- `game_over` of src/game/room.cpp.
use uno_server.Common.{ℕ, false, Option, none, some, [], ◌∷◌, ◌++◌, pos, negsuc, Outcome, ok, ◌>>=◌}
use uno_server.Stater.Events.{StatCall}
use uno_server.Stater.Display.{get_stat, get_winner_stealer}
use uno_server.Room.Types.{Room, State, GameState, PlayerMap, clear_players}
use uno_server.Room.Notify.{World, Event, round_flow, broadcast_event, stat_event}

-- The resets that `game_over` and `game_dismiss` share; the direction is kept for the next game.
unfoldable pub clear_game : Option ℕ → Room → Room
clear_game winner r = record r {
  last_win = winner;
  last_direction = r.direction;
  state = State.idle;
  game_state = GameState.idle;
  deal_turn = 0;
  cursor = negsuc 0;
  direction = pos 1;
  dealer = none;
  timer = pos 0;
  heap = [];
  last = pos 0;
  last_chg_color = pos 0;
  draw = 0;
  last_can_report = none;
  can_play_ahead = false;
  history = [];
  players = clear_players r.players;
}

-- `CALL_S2S("round_flow", ...)` for each player.
unfoldable pub send_stats : PlayerMap → World → World
send_stats [] w = w
send_stats ((uid, p) ∷ ps) w =
    let r = w.room in
    let (stat, g) = get_stat uid r.stater in
    send_stats ps
      (record w { room = record r { stater = g }; sent = w.sent ++ round_flow uid stat ∷ [] })

unfoldable pub game_over : World → ℕ → Outcome World
game_over w uid = do
  w1 ← stat_event false (StatCall.player_win uid) (
      broadcast_event none (Event.player_win uid)
        (record w { room = clear_game (some uid) w.room }))
  let w2 = send_stats w1.room.players w1
  let g = w2.room.stater
  ok (broadcast_event none (Event.game_stat g.display_stat uid (get_winner_stealer g)) w2)
