-- ===== src/Room/Leave.antt =====
-- `game_player_leave` of src/game/room.cpp. The iterator that the source returns is left out: the
-- callers that use it go on with the other players.
use uno_server.Common.{
  ℕ, ◌-◌, Bool, true, false, not, ◌&&◌, Option, none, some, [], ◌++◌, ◌==◌, ltb, if◌then◌else◌, ℤ,
  pos, negsuc, ◌-ℤ◌, lookup, erase, index_of, erase_at, get_elem?, Outcome, ok, assert_that,
  assert_some, in_range, ◌>>=◌, ◌>>◌,
}
use uno_server.Stater.Types.{LeftReason}
use uno_server.Stater.Events.{StatCall}
use uno_server.Room.Types.{Room, State, GameState, set_rest, timer_dealing_interval}
use uno_server.Room.Random.{Random}
use uno_server.Room.Notify.{World, Event, broadcast_event, stat_event}
use uno_server.Room.Cursor.{seat, game_cursor_move}
use uno_server.Room.Deal.{hand_of}
use uno_server.Room.Over.{game_over}

unfoldable pub is_playing : State → Bool
is_playing State.idle = false
is_playing State.playing = true

-- The states that the assertion excludes; `dealing` stands there twice, `dealing_dealer` is missing.
pub may_leave : GameState → Bool
may_leave GameState.idle = true
may_leave GameState.dealing = false
may_leave GameState.dealing_dealer = true
may_leave GameState.select_first_card = false
may_leave GameState.wait_player = true

-- `room->game_state >= Room::GameState::wait_player`
unfoldable pub is_waiting : GameState → Bool
is_waiting GameState.idle = false
is_waiting GameState.dealing = false
is_waiting GameState.dealing_dealer = false
is_waiting GameState.select_first_card = false
is_waiting GameState.wait_player = true

-- The hand goes back under the heap, in a random order.
unfoldable pub return_hand : Random → ℕ → World → World
return_hand R uid w =
    let r = w.room in
    let (cards, gen') = R.shuffle_cards w.gen (hand_of uid r.players) in
    if is_playing r.state
    then record w {
      room = record r { heap = cards ++ r.heap; players = set_rest uid [] r.players };
      gen = gen';
    }
    else w

-- `i == room->cursor`, an unsigned comparison.
unfoldable pub is_at : ℤ → ℕ → Bool
is_at (pos k) i = k == i
is_at (negsuc k) i = false

-- `room->cursor > i`, an unsigned comparison: a negative cursor is above every index.
unfoldable pub is_above : ℤ → ℕ → Bool
is_above (pos k) i = ltb i k
is_above (negsuc k) i = true

-- The turn goes to the next player, who gets a short time.
unfoldable pub skip_leaver : ℕ → Room → Outcome Room
unfolding is_waiting
skip_leaver i r = do
  let r1 = game_cursor_move r none r.direction
  assert_that (not (is_at r1.cursor i))
  ok (
      if is_waiting r1.game_state
      then record r1 { game_state = GameState.wait_player; timer = pos timer_dealing_interval }
      else r1)

-- The seat is taken away, and the cursor keeps to its player.
unfoldable pub close_seat : ℕ → Room → Room
close_seat i r = record r {
  seq = erase_at i r.seq;
  cursor = if is_above r.cursor i then r.cursor -ℤ pos 1 else r.cursor;
}

unfoldable pub leave_seat : Room → Option ℕ → Outcome Room
leave_seat r none = ok r
leave_seat r (some i) =
    if is_playing r.state && is_at r.cursor i
    then (skip_leaver i r >>= λ r1. ok (close_seat i r1))
    else ok (close_seat i r)

-- `room->seq[0]`
pub first_seat : Room → Outcome ℕ
first_seat r = in_range (get_elem? r.seq 0)

-- The owner's place goes to the first seat.
unfoldable pub pass_ownership : ℕ → World → Outcome World
unfolding first_seat
pass_ownership uid w =
    if w.room.owner == uid
    then (do
      heir ← first_seat w.room
      let r = w.room
      ok (
          broadcast_event (some uid) (Event.owner_changed heir)
            (record w { room = record r { owner = heir } })))
    else ok w

unfoldable pub is_winner : Option ℕ → ℕ → Bool
is_winner none uid = false
is_winner (some u) uid = u == uid

-- The event that closes the call, which has no timer.
unfoldable pub refresh : World → Outcome World
refresh w = do
  uid ← seat w.room
  let r = w.room
  ok (
      broadcast_event none
        (Event.thinking_untimed uid r.last r.last_chg_color r.direction r.draw r.last_can_report
          r.can_play_ahead)
        w)

-- The last player wins.
unfoldable pub end_leave : World → Outcome World
unfolding first_seat
end_leave w =
    if is_playing w.room.state && (w.room.curr_players == 1)
    then (first_seat w.room >>= λ winner. game_over w winner)
    else refresh w

-- What follows for the players who stay.
unfoldable pub after_leave : World → ℕ → LeftReason → Outcome World
unfolding is_winner
after_leave w uid reason = do
  w1 ← pass_ownership uid w
  let r = w1.room
  let w2 = record w1 {
    room = record r { last_win = if is_winner r.last_win uid then none else r.last_win };
  }
  w3 ←
      stat_event false (StatCall.player_left uid reason)
        (broadcast_event (some uid) (Event.player_left reason) w2)
  end_leave w3

-- `curr_players --` runs for a player who is in the room, so it is not 0 before.
unfoldable pub game_player_leave : Random → World → ℕ → LeftReason → Outcome World
unfolding may_leave
game_player_leave R w uid reason = do
  player ← assert_some (lookup uid w.room.players)
  assert_that (may_leave w.room.game_state)
  let w1 = return_hand R uid w
  r ← leave_seat w1.room (index_of uid w1.room.seq)
  let w2 = record w1 {
    room = record r { players = erase uid r.players; curr_players = r.curr_players - 1 };
  }
  if w2.room.curr_players == 0 then ok w2 else after_leave w2 uid reason
