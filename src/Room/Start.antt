-- ===== src/Room/Start.antt =====
-- `game_start` of src/game/room.cpp.
use uno_server.Common.{
  ℕ, ◌+◌, ◌*◌, false, not, ◌||◌, none, some, List, [], ◌++◌, ◌==◌, leb, ℤ, pos, negsuc, negate,
  ◌==ℤ◌, length, index_of, Outcome, ok, assert_that, ◌>>=◌, ◌>>◌,
}
use uno_server.Card.Deck.{card_set}
use uno_server.Room.Types.{
  Room, State, GameState, clear_players, player_start_card_count, dealer_start_card_ext_count,
  timer_dealing_interval,
}
use uno_server.Room.Random.{Random, random_select}
use uno_server.Room.Notify.{World}
use uno_server.Room.Leave.{is_playing}

-- The resets at the start. The first `direction = -1` of the source is overwritten.
unfoldable pub reset_game : Room → Room
reset_game r = record r {
  game_state = GameState.idle;
  deal_turn = 0;
  direction = pos 1;
  dealer = none;
  timer = pos 0;
  heap = [];
  last = pos 0;
  last_chg_color = pos 0;
  draw = 0;
  last_can_report = none;
  can_play_ahead = false;
  history = [];
  players = clear_players r.players;
}

-- The last winner deals, or a player by lot.
unfoldable pub choose_dealer : Random → World → Outcome (ℕ × ℕ)
choose_dealer R w = elim w.room.last_win [
  | some winner ↦ ok (winner, w.gen)
  | none ↦ random_select R w.gen w.room.seq
]

-- Without the dealer among the seats the cursor stays.
unfoldable pub dealer_cursor : ℕ → Room → ℤ
dealer_cursor dealer r = elim (index_of dealer r.seq) [ none ↦ r.cursor | some i ↦ pos i ]

-- `CARD_SET_COUNT` copies of the card set.
unfoldable pub full_heap : List ℤ → List ℤ
full_heap cards = cards ++ (cards ++ cards)

-- Cards and directions are set up once dealer and cursor are known.
unfoldable pub set_up : Random → World → ℕ → ℕ → Outcome World
set_up R w dealer gen1 = do
  let r = reset_game w.room
  let cursor = dealer_cursor dealer r
  let direction = negate r.last_direction
  assert_that (not (cursor ==ℤ negsuc 0))
  assert_that (direction ==ℤ pos 1 || direction ==ℤ negsuc 0)
  assert_that (r.curr_players == length r.seq)
  cards ← card_set
  let heap = full_heap cards
  assert_that
      (leb (r.curr_players * player_start_card_count + dealer_start_card_ext_count) (length heap))
  let shuffled = R.shuffle_cards gen1 heap
  ok (record w {
    room = record r {
      dealer = some dealer;
      cursor = cursor;
      direction = direction;
      heap = shuffled.0;
      state = State.playing;
      game_state = GameState.dealing;
      timer = pos timer_dealing_interval;
    };
    gen = shuffled.1;
  })

unfoldable pub game_start : Random → World → Outcome World
game_start R w = do
  assert_that (not (is_playing w.room.state))
  assert_that (leb 2 w.room.curr_players)
  chosen ← choose_dealer R w
  set_up R w chosen.0 chosen.1
