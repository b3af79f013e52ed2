-- ===== src/Room/Play.antt =====
-- `game_player_card_play` of src/game/room.cpp.
use uno_server.Common.{
  ℕ, suc, ◌+◌, Bool, true, false, not, ◌&&◌, ◌||◌, Option, none, some, List, [], ◌∷◌, ◌++◌, ◌==◌,
  if◌then◌else◌, ℤ, pos, ◌+ℤ◌, negate, ◌==ℤ◌, length, lookup, erase_at, Outcome, ok, assert_some,
  ◌>>=◌,
}
use uno_server.Card.{
  color_all, color_red, color_green, color_blue, color_yellow, func_skip, func_reverse, func_draw2,
  func_draw4, get_color, get_func, is_func_card,
}
use uno_server.Stater.Types.{DealReason}
use uno_server.Stater.Events.{StatCall}
use uno_server.Room.Types.{
  Room, GameState, set_rest, punish_for_last_func_card, timer_player_thinking,
}
use uno_server.Room.Random.{Random}
use uno_server.Room.Notify.{World, Event, send_event, broadcast_event, stat_event}
use uno_server.Room.Cursor.{seat, game_cursor_move}
use uno_server.Room.Rules.{game_can_play_card}
use uno_server.Room.Deal.{hand_of, game_player_deal_card, broadcast_thinking}
use uno_server.Room.Over.{game_over}

-- The index of the card in the hand.
unfoldable pub find_card : ℤ → List ℤ → Option ℕ
find_card c [] = none
find_card c (x ∷ xs) =
    let rest = find_card c xs in
    if x ==ℤ c then some 0 else elim rest [ none ↦ none | some i ↦ some (suc i) ]

unfoldable pub is_chg_color : ℤ → Bool
is_chg_color c =
    c ==ℤ pos color_red || c ==ℤ pos color_green || c ==ℤ pos color_blue || c ==ℤ pos color_yellow

-- What the checks find out about a card that may be played.
pub record Play : Type 0 where
  pub index : ℕ
  pub need_uno : Bool
  pub func : ℕ
  pub color : ℕ
  pub ahead : Bool

-- The turn and the rules.
check_match : Room → ℕ → ℤ → ℕ → List ℤ → ℕ → ℕ → Outcome (Option Play)
check_match r uid c index rest func color = do
  cur ← seat r
  let ahead = not (uid == cur)
  matches ← game_can_play_card r c ahead
  ok (
      if matches
      then some (record {
        index = index;
        need_uno = length rest == 2;
        func = func;
        color = color;
        ahead = ahead;
      })
      else none)

-- The colour that a black card asks for.
check_color : Room → ℕ → ℤ → ℤ → ℕ → List ℤ → Outcome (Option Play)
unfolding check_match
check_color r uid c chg_color index rest = do
  func ← get_func c
  color ← get_color c
  if (color == color_all) && not (is_chg_color chg_color)
      then ok none
      else check_match r uid c index rest func color

-- The search for the card.
check_index : Room → ℕ → ℤ → ℤ → List ℤ → Option ℕ → Outcome (Option Play)
unfolding check_color
check_index r uid c chg_color rest none = ok none
check_index r uid c chg_color rest (some index) = check_color r uid c chg_color index rest

-- The checks before anything changes; `none` where the source returns false.
unfoldable pub check_play : Room → ℕ → ℤ → ℤ → Outcome (Option Play)
unfolding check_index
check_play r uid c chg_color = do
  player ← assert_some (lookup uid r.players)
  check_index r uid c chg_color player.rest (find_card c player.rest)

-- The card goes from the hand to the history, and sets direction, colour and penalty.
unfoldable pub move_card : Room → ℕ → ℤ → ℤ → Play → Room
move_card r uid c chg_color p = record r {
  players = set_rest uid (erase_at p.index (hand_of uid r.players)) r.players;
  history = r.history ++ c ∷ [];
  last = c;
  last_chg_color = if p.color == color_all then chg_color else pos 0;
  direction = if p.func == func_reverse then negate r.direction else r.direction;
  draw =
      if p.func == func_draw2
      then r.draw + 2
      else if p.func == func_draw4
      then r.draw + 4
      else r.draw;
}

-- The local variable `direction`: two seats on after a skip.
unfoldable pub play_step : Room → Play → ℤ
play_step r p =
    if p.func == func_skip
    then r.direction +ℤ r.direction
    else if p.func == func_reverse
    then negate r.direction
    else r.direction

-- The other players see no hand.
unfoldable pub tell_play : ℕ → ℤ → Bool → Play → World → Outcome World
tell_play uid c with_uno p w = do
  let rest = hand_of uid w.room.players
  let n = length rest
  w1 ←
      stat_event true (StatCall.card_play uid c p.need_uno with_uno n rest p.ahead)
        (send_event uid (some uid) (Event.card_play c p.need_uno with_uno n (some rest) p.ahead) w)
  stat_event false (StatCall.card_play uid c p.need_uno with_uno n [] p.ahead)
      (broadcast_event (some uid) (Event.card_play c p.need_uno with_uno n none p.ahead) w1)

-- A punishment of two cards, if it is due. Both punishments of the source are the same call.
unfoldable pub punish_if : Bool → Random → ℕ → World → Outcome World
punish_if due R uid w =
    if due
    then (game_player_deal_card R w uid punish_for_last_func_card DealReason.last_card none
        >>= λ res. ok res.1)
    else ok w

-- The turn goes on.
unfoldable pub next_turn : World → ℕ → ℤ → Bool → Play → Outcome World
next_turn w uid step with_uno p =
    let r = game_cursor_move w.room (if p.ahead then some uid else none) step in
    broadcast_thinking (record w {
      room = record r {
        game_state = GameState.wait_player;
        timer = pos timer_player_thinking;
        can_play_ahead = true;
        last_can_report = if p.need_uno && not with_uno then some uid else none;
      };
    })

is_empty {ℓ} : {A : Type ℓ} → List A → Bool
is_empty [] = true
is_empty (x ∷ xs) = false

-- An empty hand wins.
unfoldable pub end_play : World → ℕ → ℤ → Bool → Play → Outcome World
unfolding is_empty
end_play w uid step with_uno p =
    if is_empty (hand_of uid w.room.players)
    then game_over w uid
    else next_turn w uid step with_uno p

unfoldable pub apply_play : Random → World → ℕ → ℤ → Bool → ℤ → Play → Outcome World
apply_play R w uid c with_uno chg_color p = do
  let w1 = record w { room = move_card w.room uid c chg_color p }
  let rest_count = length (hand_of uid w1.room.players)
  w2 ← tell_play uid c with_uno p w1
  w3 ← punish_if (not p.need_uno && with_uno) R uid w2
  action ← is_func_card c
  w4 ← punish_if ((rest_count == 0) && action) R uid w3
  end_play w4 uid (play_step w.room p) with_uno p

unfoldable pub apply_checked :
    Random → World → ℕ → ℤ → Bool → ℤ → Option Play → Outcome (Bool × World)
apply_checked R w uid c with_uno chg_color none = ok (false, w)
apply_checked R w uid c with_uno chg_color (some p) =
    apply_play R w uid c with_uno chg_color p >>= λ w'. ok (true, w')

unfoldable pub game_player_card_play : Random → World → ℕ → ℤ → Bool → ℤ → Outcome (Bool × World)
unfolding apply_checked
game_player_card_play R w uid c with_uno chg_color = do
  checked ← check_play w.room uid c chg_color
  apply_checked R w uid c with_uno chg_color checked
