-- ===== src/Room/Update/Waiting.antt =====
-- The state `wait_player`, the idle room, and `game_update` itself.
use uno_server.Common.{
  ℕ, ◌+◌, ◌%◌, Bool, false, not, ◌&&◌, none, List, [], ◌∷◌, ◌++◌, ◌==◌, ltb, if◌then◌else◌, ℤ, pos,
  ◌-ℤ◌, leb_ℤ, length, lookup, keys, Outcome, ok, assert_that, assert_some, ◌>>=◌, ◌>>◌,
}
use uno_server.Card.{color_all, color_red, color_yellow, color_blue, color_green, get_color}
use uno_server.Stater.Types.{DealReason, LeftReason}
use uno_server.Session.Types.{sub_time}
use uno_server.Room.Types.{
  Room, Player, State, GameState, player_auto_tick_offline_time, player_auto_play_offline_time,
  player_auto_play_thinking_time,
}
use uno_server.Room.Random.{Random, random_select}
use uno_server.Room.Notify.{World}
use uno_server.Room.Cursor.{seat}
use uno_server.Room.Rules.{game_can_play_card}
use uno_server.Room.Deal.{game_player_deal_card}
use uno_server.Room.Play.{game_player_card_play}
use uno_server.Room.Leave.{game_player_leave}
use uno_server.Room.Update.Dealing.{
  cursor_in_range, set_timer, deal_start_card, deal_dealer_card, choose_first_card,
}

-- `player.offline && now - player.offline_time >= std::chrono::microseconds(limit)`
unfoldable pub is_long_offline : ℕ → ℤ → Player → Bool
is_long_offline limit now p = p.offline && leb_ℤ (pos limit) (sub_time now p.offline_time)

-- The loop over the players of an idle room.
unfoldable pub kick_offline : Random → ℤ → List ℕ → World → Outcome World
kick_offline R now [] w = ok w
kick_offline R now (uid ∷ uids) w = do
  player ← assert_some (lookup uid w.room.players)
  w1 ←
      if is_long_offline player_auto_tick_offline_time now player
      then game_player_leave R w uid LeftReason.offline_kick
      else ok w
  kick_offline R now uids w1

pub record ColorCount : Type 0 where
  pub red : ℕ
  pub yellow : ℕ
  pub green : ℕ
  pub blue : ℕ

pub count_color : ℕ → ColorCount → ColorCount
count_color color k =
    if color == color_red
    then record k { red = k.red + 1 }
    else if color == color_yellow
    then record k { yellow = k.yellow + 1 }
    else if color == color_green
    then record k { green = k.green + 1 }
    else if color == color_blue
    then record k { blue = k.blue + 1 }
    else k

-- The loop over the hand: the cards that may be played, and the colours.
unfoldable pub survey_hand : Room → List ℤ → List ℤ → ColorCount → Outcome (List ℤ × ColorCount)
unfolding count_color
survey_hand r [] cards k = ok (cards, k)
survey_hand r (c ∷ rest) cards k = do
  playable ← game_can_play_card r c false
  color ← get_color c
  survey_hand r rest (if playable then cards ++ c ∷ [] else cards) (count_color color k)

-- The ladder of the colour choice, `color_all` where it finds none.
unfoldable pub greedy_color : ColorCount → ℕ
greedy_color k =
    if not (k.blue == 0)
    then color_blue
    else if ltb k.blue k.green
    then color_green
    else if ltb k.green k.yellow
    then color_yellow
    else if ltb k.yellow k.red
    then color_red
    else color_all

-- The colour for a black card; for another card `color_all`, which is not read.
unfoldable pub choose_color : Random → ℕ → ℤ → ColorCount → Outcome (ℕ × ℕ)
choose_color R gen c k = do
  color ← get_color c
  if not (color == color_all)
      then ok (color_all, gen)
      else if not (greedy_color k == color_all)
      then ok (greedy_color k, gen)
      else random_select R gen (color_blue ∷ color_green ∷ color_yellow ∷ color_red ∷ [])

-- `player.rest.size() == 2 && random() % 2`
unfoldable pub choose_uno : Random → ℕ → List ℤ → Bool × ℕ
choose_uno R gen rest =
    let lot = R.random gen in
    if length rest == 2 then (not (lot.0 % 2 == 0), lot.1) else (false, gen)

-- The server plays a card for the player.
unfoldable pub auto_play : Random → World → ℕ → List ℤ → List ℤ → ColorCount → Outcome World
auto_play R w uid rest cards k = do
  selected ← random_select R w.gen cards
  chosen ← choose_color R selected.1 selected.0 k
  let uno = choose_uno R chosen.1 rest
  res ← game_player_card_play R (record w { gen = uno.1 }) uid selected.0 uno.0 (pos chosen.0)
  ok res.1

-- The server acts for the player in turn.
unfoldable pub act_for : Random → World → ℕ → List ℤ → Outcome World
act_for R w uid rest = do
  found ← survey_hand w.room rest [] (record { red = 0; yellow = 0; green = 0; blue = 0 })
  elim found.0 [
    | [] ↦ game_player_deal_card R w uid 1 DealReason.normal none >>= λ res. ok res.1
    | c ∷ cs ↦ auto_play R w uid rest (c ∷ cs) found.1
  ]

-- A player who is long offline has less time.
unfoldable pub threshold : ℤ → Player → ℤ
threshold now p =
    if is_long_offline player_auto_play_offline_time now p
    then pos player_auto_play_thinking_time
    else pos 0

unfoldable pub wait_tick : Random → ℤ → World → Outcome World
wait_tick R now w = do
  assert_that (cursor_in_range w.room)
  uid ← seat w.room
  player ← assert_some (lookup uid w.room.players)
  let w1 = set_timer (w.room.timer -ℤ pos 1) w
  if leb_ℤ w1.room.timer (threshold now player) then act_for R w1 uid player.rest else ok w1

-- A countdown, with what is due at its end.
unfoldable pub after_tick : World → (World → Outcome World) → Outcome World
after_tick w act =
    let w1 = set_timer (w.room.timer -ℤ pos 1) w in
    if leb_ℤ w1.room.timer (pos 0) then act w1 else ok w1

unfoldable pub game_tick : Random → ℤ → GameState → World → Outcome World
game_tick R now GameState.idle w = ok w
game_tick R now GameState.dealing w = after_tick w (deal_start_card R)
game_tick R now GameState.dealing_dealer w = after_tick w (deal_dealer_card R)
game_tick R now GameState.select_first_card w = after_tick w (choose_first_card R)
game_tick R now GameState.wait_player w = wait_tick R now w

unfoldable pub update_state : Random → ℤ → State → World → Outcome World
update_state R now State.idle w = kick_offline R now (keys w.room.players) w
update_state R now State.playing w = game_tick R now w.room.game_state w

unfoldable pub game_update : Random → ℤ → World → Outcome World
game_update R now w = update_state R now w.room.state w
