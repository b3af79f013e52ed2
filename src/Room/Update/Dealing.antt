-- ===== src/Room/Update/Dealing.antt =====
-- The states `dealing`, `dealing_dealer` and `select_first_card` of `game_update`.
use uno_server.Common.{
  ℕ, zero, suc, ◌+◌, ◌-◌, ◌*◌, ◌%◌, Bool, true, false, not, ◌&&◌, none, some, List, [], ◌∷◌, ◌++◌,
  ◌==◌, ltb, leb, if◌then◌else◌, ℤ, pos, negsuc, leb_ℤ, ◌==ℤ◌, length, get_elem?, set, lookup,
  Outcome, ok, assert_that, assert_some, in_range, ◌>>=◌, ◌>>◌,
}
use uno_server.Card.{is_func_card}
use uno_server.Stater.Types.{DealReason}
use uno_server.Stater.Events.{StatCall}
use uno_server.Room.Types.{
  Room, GameState, player_start_card_count, dealer_start_card_ext_count, timer_dealing_interval,
  timer_select_first_card_interval, timer_player_thinking,
}
use uno_server.Room.Random.{Random}
use uno_server.Room.Notify.{World, Event, send_event, broadcast_event, stat_event}
use uno_server.Room.Cursor.{seat, game_cursor_move}
use uno_server.Room.Heap.{game_card_heap_deal}
use uno_server.Room.Deal.{hand_of, give, broadcast_thinking}

-- `room->cursor < room->seq.size()`, an unsigned comparison.
unfoldable pub cursor_in_range : Room → Bool
cursor_in_range r = elim r.cursor [ pos k ↦ ltb k (length r.seq) | negsuc k ↦ false ]

-- `room->seq[room->cursor] == room->dealer`
unfoldable pub assert_dealer : Room → Outcome (Unit {0})
assert_dealer r = do uid ← seat r; assert_that (elim r.dealer [ none ↦ false | some d ↦ uid == d ])

unfoldable pub set_timer : ℤ → World → World
set_timer t w = let r = w.room in record w { room = record r { timer = t } }

-- The messages for one card of the start: only its player sees it.
unfoldable pub tell_start_card : ℕ → ℤ → World → Outcome World
tell_start_card uid c w = do
  let n = length (hand_of uid w.room.players)
  let cursor = w.room.cursor
  w1 ← stat_event true (StatCall.card_deal uid n 1 (c ∷ []) DealReason.normal none cursor) (
      send_event uid (some uid) (Event.card_deal n 1 (some (c ∷ [])) DealReason.normal none cursor)
        w)
  stat_event false (StatCall.card_deal uid n 1 [] DealReason.normal none cursor)
      (broadcast_event (some uid) (Event.card_deal n 1 none DealReason.normal none cursor) w1)

-- The end of a round of dealing.
unfoldable pub count_deal : World → Outcome World
count_deal w =
    let r = w.room in
    let turn = r.deal_turn + 1 in
    let all = r.curr_players * player_start_card_count in
    if leb all turn
    then (do
      assert_that (turn == all)
      assert_dealer r
      ok (record w {
        room = record r {
          game_state = GameState.dealing_dealer;
          deal_turn = 0;
          timer = pos timer_dealing_interval;
        };
      }))
    else ok (record w { room = record r { deal_turn = turn; timer = pos timer_dealing_interval } })

-- A card to the player under the cursor.
unfoldable pub deal_start_card : Random → World → Outcome World
deal_start_card R w = do
  assert_that (cursor_in_range w.room)
  uid ← seat w.room
  player ← assert_some (lookup uid w.room.players)
  let drawn = game_card_heap_deal R w
  assert_that (not (drawn.0 ==ℤ pos 0))
  let w1 = give uid drawn.0 drawn.1
  w2 ←
      tell_start_card uid drawn.0
        (record w1 { room = game_cursor_move w1.room none w1.room.direction })
  count_deal w2

-- The end of a round of dealing to the dealer.
unfoldable pub count_dealer : World → Outcome World
count_dealer w =
    let r = w.room in
    let turn = r.deal_turn + 1 in
    if leb dealer_start_card_ext_count turn
    then (do
      assert_that (turn == dealer_start_card_ext_count)
      ok (record w {
        room = record r {
          game_state = GameState.select_first_card;
          deal_turn = 0;
          timer = pos timer_select_first_card_interval;
          can_play_ahead = true;
        };
      }))
    else ok (record w { room = record r { deal_turn = turn; timer = pos timer_dealing_interval } })

unfoldable pub deal_dealer_card : Random → World → Outcome World
deal_dealer_card R w = do
  assert_that (cursor_in_range w.room)
  uid ← seat w.room
  assert_dealer w.room
  player ← assert_some (lookup uid w.room.players)
  let drawn = game_card_heap_deal R w
  assert_that (leb_ℤ (pos 0) drawn.0)
  w1 ← tell_start_card uid drawn.0 (give uid drawn.0 drawn.1)
  count_dealer w1

-- `std::swap` of the element at `idx` with the last one, written out in the source.
unfoldable pub swap_last : ℕ → List ℤ → Outcome (List ℤ)
swap_last idx heap = do
  let end = length heap - 1
  tmp ← in_range (get_elem? heap idx)
  back ← in_range (get_elem? heap end)
  ok (set (set heap idx back) end tmp)

-- The card goes back to the heap, under one drawn by lot.
unfoldable pub put_back : Random → ℤ → World → Outcome World
put_back R c w = do
  let r = w.room
  let heap = r.heap ++ c ∷ []
  let lot = R.random w.gen
  swapped ← swap_last (lot.0 % length heap) heap
  ok (record w { room = record r { heap = swapped }; gen = lot.1 })

-- The loop of the first card; `rounds` is `limit + 1`, the number of cards that it may put back.
unfoldable pub first_card_loop : Random → ℕ → World → Outcome (ℤ × World)
first_card_loop R zero w = do
  let drawn = game_card_heap_deal R w
  assert_that (leb_ℤ (pos 0) drawn.0)
  ok drawn
first_card_loop R (suc rounds) w = do
  let drawn = game_card_heap_deal R w
  let again = put_back R drawn.0 drawn.1 >>= first_card_loop R rounds
  assert_that (leb_ℤ (pos 0) drawn.0)
  action ← is_func_card drawn.0
  if action && ltb 1 (length drawn.1.room.heap) then again else ok drawn

-- `int limit = 100;`
abbrev pub first_card_rounds : ℕ
first_card_rounds = 101

unfoldable pub choose_first_card : Random → World → Outcome World
choose_first_card R w = do
  drawn ← first_card_loop R first_card_rounds w
  let w1 = broadcast_event none (Event.first_card drawn.0) drawn.1
  assert_dealer w1.room
  let r = w1.room
  broadcast_thinking (record w1 {
    room = record r {
      game_state = GameState.wait_player;
      last = drawn.0;
      last_chg_color = pos 0;
      history = r.history ++ drawn.0 ∷ [];
      timer = pos timer_player_thinking;
    };
  })
