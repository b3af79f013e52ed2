-- ===== src/Tests.antt =====
-- A table with two players, and the theorems at it.
mod Requests
mod Sessions
mod Routing
mod Accounts
use Prim.Native.Nat.{min}
use mathlib.Core.List.{Perm}
use uno_server.Common.{
  ◌++◌, ◌==◌, if◌then◌else◌, length, fault, out_of_bounds, ℕ, suc, ◌+◌, ◌%◌, ◌<◌, ◌≡◌, ◌⊎◌, refl,
  true, false, none, some, List, [], ◌∷◌, arith, ℤ, pos, negsuc, ◌==ℤ◌, ==ℤ_iff, ok, All,
  Bool-cases, inl, inr, contains,
}
use uno_server.Card.{low3, is_valid_color}
use uno_server.Stater.Types.{DisplayStat, GameStater, DealReason, LeftReason, no_stat, new_stater}
use uno_server.Room.Types.{Room, Player, State, GameState, view}
use uno_server.Room.Random.{Random, IsRandom, count}
use uno_server.Room.Notify.{World}
use uno_server.Room.Cursor.{seat}
use uno_server.Room.Deal.{is_positive}
use uno_server.Room.Deal.{deal_cards, game_player_deal_card, game_player_report_no_uno}
use uno_server.Room.Heap.{game_card_heap_deal}
use uno_server.Room.Over.{game_over}
use uno_server.Room.Play.{game_player_card_play}
use uno_server.Room.Cursor.{game_cursor_move}
use uno_server.Stater.Display.{on_player_win}
use uno_server.Stater.Awards.{candidates, IsFalling, on_player_win_lem}
use uno_server.Stater.Events.{StatCall}
use uno_server.Stater.Dispatch.{call_stat_event}
use uno_server.Card.{compose_card, get_color, get_func}
use uno_server.Room.Laws.Quiet.{call_stat_event_ignored}
use uno_server.Room.Laws.Turn.{game_cursor_move_lem}
use uno_server.Room.Laws.Draw.{Draw, game_card_heap_deal-Draw}
use uno_server.Room.Laws.Dealt.{Dealt, Positive, deal_cards-Dealt}
use uno_server.Room.Laws.Dealing.{
  DealtInTurn, game_player_deal_card_in_turn, game_player_deal_card_out_of_turn,
}
use uno_server.Room.Laws.Report.{Reported, game_player_report_no_uno_lem}
use uno_server.Room.Laws.Check.{Legal, Refused, Accepted, check_play_lem}
use uno_server.Room.Laws.Ending.{Ended, game_over_lem}
use uno_server.Room.Update.{game_update}
use uno_server.Room.Start.{game_start}
use uno_server.Room.Leave.{game_player_leave, leave_seat}
use uno_server.Room.Laws.Seats.{leave_seat_lem}
use uno_server.Room.Laws.Waiting.{GoesOnOrEnds, game_update-waiting}
use uno_server.Room.Laws.Starting.{Started, game_start_lem}
use uno_server.Room.Laws.Leaving.{game_player_leave-idle}
use uno_server.Room.Laws.PlayCall.{GoesOn, Wins, game_player_card_play_lem}
use uno_server.Room.Laws.Piles.{total, hand_count, IsMember}
use uno_server.Room.Laws.Table.{IsTable, is_card, has_color, table-Positive}

-- Generators that shuffle nothing and choose the first.
abbrev plain : Random
plain = record {
  shuffle_cards = λ gen cards. (cards, gen);
  shuffle_seats = λ gen seats. (seats, gen);
  uniform = λ gen n. (0, gen);
  random = λ gen. (gen, gen + 1);
}

plain-IsRandom : IsRandom plain
plain-IsRandom = record {
  shuffle_count = λ gen cards c. refl;
  shuffle_length = λ gen cards. refl;
  uniform_le = λ gen n. omega arith;
}

abbrev red_3 : ℤ
red_3 = pos 33

abbrev red_5 : ℤ
red_5 = pos 49

abbrev red_draw2 : ℤ
red_draw2 = pos 105

abbrev blue_skip : ℤ
blue_skip = pos 91

abbrev black_draw4 : ℤ
black_draw4 = pos 112

abbrev player : List ℤ → Player
player rest = record {
  nick = "nick";
  email = "email";
  rest = rest;
  ready = false;
  offline = false;
  offline_time = pos 0;
  last_use_voice_time = pos 0;
}

abbrev stater : GameStater
stater = record new_stater { gaming = true; round_stat = (7, no_stat) ∷ (9, no_stat) ∷ [] }

abbrev room : Room
room = record {
  id = 1;
  state = State.playing;
  title = "room";
  owner = 7;
  max_players = pos 2;
  curr_players = 2;
  players = (7, player (red_5 ∷ black_draw4 ∷ [])) ∷ (9, player (red_draw2 ∷ [])) ∷ [];
  seq = 7 ∷ 9 ∷ [];
  last_win = none;
  last_direction = pos 1;
  last_update_seat_time = pos 0;
  game_state = GameState.wait_player;
  deal_turn = 0;
  cursor = pos 0;
  direction = pos 1;
  dealer = some 7;
  timer = pos 5;
  heap = blue_skip ∷ red_5 ∷ [];
  last = red_3;
  last_chg_color = pos 0;
  draw = 0;
  last_can_report = some 9;
  can_play_ahead = true;
  history = red_3 ∷ [];
  stater = stater;
}

abbrev world : World
world = record { room = room; gen = 3; has_session = λ uid. true; sent = [] }

-- A pile of cards holds nothing else.
cards_only-count :
    (x : ℤ) (xs : List ℤ) → is_card x ≡ false → All (λ y. is_card y ≡ true) xs → count x xs ≡ 0
unfolding count
cards_only-count x [] h a = refl
cards_only-count x (y ∷ xs) h a = elim (Bool-cases (y ==ℤ x)) [
  | inl e ↦ let same = (==ℤ_iff y x).0 e in absurd (cc (a.0))
  | inr e ↦ rw e (omega (arith, cards_only-count x xs h a.1))
]

room-cards_only : (x : ℤ) → is_card x ≡ false → total x room ≡ 0
unfolding total is_card has_color is_positive low3 is_valid_color hand_count count
room-cards_only x h = omega (
  arith,
  cards_only-count x room.heap h (refl, (refl, tt)),
  cards_only-count x room.history h (refl, tt),
  cards_only-count x (red_5 ∷ black_draw4 ∷ []) h (refl, (refl, tt)),
  cards_only-count x (red_draw2 ∷ []) h (refl, tt),
)

room-reportable : (u : ℕ) → room.last_can_report ≡ some u → IsMember u room.players
room-reportable u p = ground arith

room-counted : (u : ℕ) → IsMember u room.players → contains u stater.round_stat ≡ true
room-counted u m = ground arith

room-IsTable : IsTable room
unfolding has_color low3 is_valid_color
room-IsTable = record {
  seated = refl;
  spot = 0;
  at_spot = refl;
  in_seat = omega arith;
  members = (refl, (refl, tt));
  cards_only = room-cards_only;
  last_color = refl;
  penalty = λ p. absurd (omega arith);
  reportable = room-reportable;
  counted = room-counted;
}

game_player_card_play_lem_example :
    ((game_player_card_play plain world 7 red_5 true (pos 0) ≡ ok (false, world))
      × (Legal room 7 red_5 (pos 0) → ⊥))
    ⊎ (Legal room 7 red_5 (pos 0)
        × ((w' : World) × (game_player_card_play plain world 7 red_5 true (pos 0) ≡ ok (true, w'))
            × (GoesOn room 7 red_5 (pos 0) true w'.room ⊎ Wins room 7 red_5 true w'.room)))
game_player_card_play_lem_example =
    game_player_card_play_lem plain-IsRandom world 7 red_5 (pos 0) true room-IsTable refl

game_player_deal_card_in_turn_example :
    (w' : World) × (game_player_deal_card plain world 7 1 DealReason.normal none ≡ ok (true, w'))
    × DealtInTurn world 7 w'
unfolding seat
game_player_deal_card_in_turn_example =
    game_player_deal_card_in_turn plain-IsRandom world 7 1 none room-IsTable refl

game_player_report_no_uno_lem_example :
    ((room.last_can_report ≡ none) × (game_player_report_no_uno plain world 7 ≡ ok (false, world)))
    ⊎ ((v : ℕ) × (room.last_can_report ≡ some v)
        × ((w' : World) × (game_player_report_no_uno plain world 7 ≡ ok (true, w'))
            × Reported world v w'))
game_player_report_no_uno_lem_example =
    game_player_report_no_uno_lem plain-IsRandom world 7 room-IsTable refl

game_over_lem_example : (w' : World) × (game_over world 9 ≡ ok w') × Ended room 9 w'.room
game_over_lem_example = game_over_lem world 9 refl

call_stat_event_ignored_example :
    (call_stat_event true
        (view room)
        (StatCall.card_deal 7 3 1 [] DealReason.draw none (pos 0))
        stater
      ≡ ok stater)
    × (call_stat_event true (view room) (StatCall.card_play 7 red_5 true true 3 [] false) stater
        ≡ ok stater)
    × (call_stat_event true (view room) (StatCall.player_left 7 LeftReason.normal) stater
        ≡ ok stater)
call_stat_event_ignored_example =
    call_stat_event_ignored true (view room) stater 7 3 1 [] DealReason.draw none (pos 0) red_5 true
      true false LeftReason.normal

-- The same players after a game.
abbrev idle_world : World
idle_world = record world {
  room = record room { state = State.idle; game_state = GameState.idle; cursor = negsuc 0 };
}

game_update-waiting_example :
    (w' : World) × (game_update plain (pos 100) world ≡ ok w') × GoesOnOrEnds room w'.room
game_update-waiting_example =
    game_update-waiting plain-IsRandom world (pos 100) room-IsTable refl refl

game_start_lem_example :
    (w' : World) × (game_start plain idle_world ≡ ok w') × Started idle_world.room w'.room
game_start_lem_example =
    game_start_lem plain-IsRandom idle_world refl (omega arith) (omega arith) refl (inl refl)
      (inl refl)

game_player_leave-idle_example :
    game_player_leave plain idle_world 9 LeftReason.normal ≡ fault out_of_bounds
game_player_leave-idle_example =
    game_player_leave-idle plain idle_world 9 1 0 LeftReason.normal refl refl refl refl refl
      (omega arith) (λ e. absurd (omega arith))

-- Two awards for player 9, and one for player 7.
abbrev awarded : GameStater
awarded = record new_stater {
  gaming = true;
  round_stat =
      (7, record no_stat { reports = 4 })
      ∷ (9, record no_stat { draw_by_draw_card = 12; uno = 5 })
      ∷ [];
}

on_player_win_lem_example :
    (g' : GameStater) × (on_player_win awarded 9 ≡ ok g')
    × (g'.gaming ≡ false)
    × (length g'.display_stat ≡ min 5 (length (candidates awarded 9)))
    × ((hidden : List DisplayStat) × Perm (g'.display_stat ++ hidden) (candidates awarded 9)
        × IsFalling (g'.display_stat ++ hidden))
on_player_win_lem_example = on_player_win_lem awarded 9 refl

leave_seat_lem_example :
    (r' : Room) × (leave_seat room (some 0) ≡ ok r')
    × (seat r' ≡ (if 0 == 0 then seat (game_cursor_move room none room.direction) else seat room))
leave_seat_lem_example = leave_seat_lem room 0 0 refl refl (omega arith) (omega arith) (inl refl)
