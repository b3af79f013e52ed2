-- ===== src/Room/Laws/Kept/Games.antt =====
-- A play, the end and the start of a game in src/game/room.cpp keep who is in the room, and the
-- seats.
use uno_server.Common.{
  ℕ, ◌+◌, ◌≡◌, refl, Bool, true, false, not, ◌&&◌, ◌||◌, ◌==◌, leb, Option, none, some, [], ◌∷◌,
  ◌++◌, ℤ, pos, negsuc, ◌==ℤ◌, length, keys, ap, map_values, negate, ◌*◌, assert_that,
}
use uno_server.Stater.Types.{DealReason}
use uno_server.Stater.Events.{StatCall}
use uno_server.Stater.Dispatch.{call_stat_event}
use uno_server.Room.Types.{
  Player, PlayerMap, view, clear_players, punish_for_last_func_card, player_start_card_count,
  dealer_start_card_ext_count,
}
use uno_server.Room.Random.{Random}
use uno_server.Room.Notify.{World, Event, round_flow, broadcast_event, stat_event}
use uno_server.Room.Cursor.{game_cursor_move}
use uno_server.Room.Deal.{hand_of, game_player_deal_card}
use uno_server.Card.{is_func_card}
use uno_server.Card.Deck.{card_set}
use uno_server.Stater.Display.{get_stat}
use uno_server.Room.Leave.{is_playing}
use uno_server.Room.Start.{reset_game, choose_dealer, dealer_cursor, full_heap, set_up, game_start}
use uno_server.Room.Over.{clear_game, send_stats, game_over}
use uno_server.Room.Play.{
  Play, check_play, move_card, play_step, tell_play, punish_if, next_turn, end_play, apply_play,
  apply_checked, game_player_card_play,
}
use uno_server.Room.Laws.Quiet.{broadcast_event-Quiet, tell_play-Tells}
use uno_server.Room.Laws.Kept.{
  Kept-refl, Kept-trans, same_shape, Ends, Ends-bind, Ends-any, Ends-if, Ends-from, Ends-Tells,
  Keeps, KeepsToo, Keeps-Quiet, returns,
}
use uno_server.Room.Laws.Kept.Deals.{
  keys-set_rest, broadcast_thinking-Keeps, game_player_deal_card-Keeps,
}

pub stat_event-Keeps :
    (b : Bool) (call : StatCall) (w : World) → Ends (Keeps w.room) (stat_event b call w)
unfolding stat_event
stat_event-Keeps b call w =
    Ends-any (call_stat_event b (view w.room) call w.room.stater) _
      (λ g. returns _ (same_shape refl refl refl refl refl))

keys-map_values : (f : Player → Player) (m : PlayerMap) → keys (map_values f m) ≡ keys m
keys-map_values f [] = refl
keys-map_values f ((j, p) ∷ m) = ap (λ ks. j ∷ ks) (keys-map_values f m)

send_stats-Keeps : (ps : PlayerMap) (w : World) → Keeps w.room (send_stats ps w)
unfolding send_stats
send_stats-Keeps [] w = Kept-refl w.room
send_stats-Keeps ((uid, p) ∷ ps) w =
    let stat = get_stat uid w.room.stater in
    Kept-trans (same_shape refl refl refl refl refl) (
      send_stats-Keeps ps (record w {
        room = record w.room { stater = stat.1 };
        sent = w.sent ++ round_flow uid stat.0 ∷ [];
      }))

pub game_over-Keeps : (w : World) (uid : ℕ) → Ends (Keeps w.room) (game_over w uid)
unfolding game_over clear_game clear_players
game_over-Keeps w uid =
    let cleared = record w { room = clear_game (some uid) w.room } in
    Ends-bind
      (stat_event false (StatCall.player_win uid)
        (broadcast_event none (Event.player_win uid) cleared))
      _
      (Ends-from
        (Kept-trans (same_shape refl refl refl refl (keys-map_values _ w.room.players))
          (Keeps-Quiet (broadcast_event-Quiet none (Event.player_win uid) cleared)))
        (stat_event-Keeps false (StatCall.player_win uid)
          (broadcast_event none (Event.player_win uid) cleared)))
      (λ w1 k.
        let w2 = send_stats w1.room.players w1 in
        returns _ (
          Kept-trans k (
            Kept-trans (send_stats-Keeps w1.room.players w1)
              (Keeps-Quiet (broadcast_event-Quiet none _ w2)))))

punish_if-Keeps :
    (due : Bool) (R : Random) (uid : ℕ) (w : World) → Ends (Keeps w.room) (punish_if due R uid w)
unfolding punish_if
punish_if-Keeps true R uid w =
    Ends-bind (game_player_deal_card R w uid punish_for_last_func_card DealReason.last_card none) _
      (game_player_deal_card-Keeps R w uid punish_for_last_func_card DealReason.last_card none)
      (λ res k. returns res.1 k)
punish_if-Keeps false R uid w = returns w (Kept-refl w.room)

next_turn-Keeps :
    (w : World) (uid : ℕ) (step : ℤ) (with_uno : Bool) (p : Play)
    → Ends (Keeps w.room) (next_turn w uid step with_uno p)
unfolding next_turn game_cursor_move
next_turn-Keeps w uid step with_uno p =
    Ends-from (same_shape refl refl refl refl refl) (broadcast_thinking-Keeps _)

end_play-Keeps :
    (w : World) (uid : ℕ) (step : ℤ) (with_uno : Bool) (p : Play)
    → Ends (Keeps w.room) (end_play w uid step with_uno p)
unfolding end_play
end_play-Keeps w uid step with_uno p =
    Ends-if _ _ _ (game_over-Keeps w uid) (next_turn-Keeps w uid step with_uno p)

apply_play-Keeps :
    (R : Random) (w : World) (uid : ℕ) (c : ℤ) (with_uno : Bool) (chg_color : ℤ) (p : Play)
    → Ends (Keeps w.room) (apply_play R w uid c with_uno chg_color p)
unfolding apply_play move_card
apply_play-Keeps R w uid c with_uno chg_color p =
    let w1 = record w { room = move_card w.room uid c chg_color p } in
    Ends-from (same_shape refl refl refl refl (keys-set_rest uid _ w.room.players)) (
      Ends-bind (tell_play uid c with_uno p w1) _ (Ends-Tells (tell_play-Tells uid c with_uno p w1))
        (λ w2 k2.
          Ends-bind (punish_if (not p.need_uno && with_uno) R uid w2) _
            (Ends-from k2 (punish_if-Keeps (not p.need_uno && with_uno) R uid w2))
            (λ w3 k3. Ends-any (is_func_card c) _ (λ action.
              Ends-bind (punish_if ((length (hand_of uid w1.room.players) == 0) && action) R uid w3)
                _
                (Ends-from k3 (
                  punish_if-Keeps ((length (hand_of uid w1.room.players) == 0) && action) R uid w3))
                (λ w4 k4. Ends-from k4 (end_play-Keeps w4 uid (play_step w.room p) with_uno p))))))

apply_checked-Keeps :
    (R : Random) (w : World) (uid : ℕ) (c : ℤ) (with_uno : Bool) (chg_color : ℤ) (o : Option Play)
    → Ends (KeepsToo w.room) (apply_checked R w uid c with_uno chg_color o)
unfolding apply_checked
apply_checked-Keeps R w uid c with_uno chg_color none = returns (false, w) (Kept-refl w.room)
apply_checked-Keeps R w uid c with_uno chg_color (some p) =
    Ends-bind (apply_play R w uid c with_uno chg_color p) _
      (apply_play-Keeps R w uid c with_uno chg_color p) (λ w1 k. returns (true, w1) k)

pub game_player_card_play-Keeps :
    (R : Random) (w : World) (uid : ℕ) (c : ℤ) (with_uno : Bool) (chg_color : ℤ)
    → Ends (KeepsToo w.room) (game_player_card_play R w uid c with_uno chg_color)
unfolding game_player_card_play
game_player_card_play-Keeps R w uid c with_uno chg_color =
    Ends-any (check_play w.room uid c chg_color) _
      (apply_checked-Keeps R w uid c with_uno chg_color)

set_up-Keeps :
    (R : Random) (w : World) (dealer gen1 : ℕ) → Ends (Keeps w.room) (set_up R w dealer gen1)
unfolding set_up reset_game clear_players
set_up-Keeps R w dealer gen1 =
    let r = reset_game w.room in
    let cursor = dealer_cursor dealer r in
    let direction = negate r.last_direction in
    Ends-any (assert_that (not (cursor ==ℤ negsuc 0))) _ (λ _.
      Ends-any (assert_that (direction ==ℤ pos 1 || direction ==ℤ negsuc 0)) _ (λ _.
        Ends-any (assert_that (r.curr_players == length r.seq)) _ (λ _.
          Ends-any card_set _ (λ cards.
            Ends-any
              (assert_that (
                leb (r.curr_players * player_start_card_count + dealer_start_card_ext_count)
                  (length (full_heap cards))))
              _
              (λ _.
                returns _ (same_shape refl refl refl refl (keys-map_values _ w.room.players)))))))

pub game_start-Keeps : (R : Random) (w : World) → Ends (Keeps w.room) (game_start R w)
unfolding game_start
game_start-Keeps R w = Ends-any (assert_that (not (is_playing w.room.state))) _ (λ _.
    Ends-any (assert_that (leb 2 w.room.curr_players)) _
      (λ _. Ends-any (choose_dealer R w) _ (λ chosen. set_up-Keeps R w chosen.0 chosen.1)))
