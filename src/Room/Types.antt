-- ===== src/Room/Types.antt =====
-- `struct Room` of src/game/room.h. Uids are database keys and never negative; a field that holds
-- a uid or -1 is an option, with `none` for -1. Clocks count microseconds.
use Prim.Native.String.{String}
use uno_server.Common.{
  ℕ, ◌*◌, Bool, false, Option, none, some, List, [], ◌∷◌, ℤ, length, lookup, insert, map_values,
  keys, Outcome, ok, assert_some, ◌>>=◌,
}
use uno_server.Stater.Types.{GameStater}
use uno_server.Stater.Dispatch.{RoomView}

-- `Room::State`
pub data State : Type 0 where
  idle playing : State

-- `Room::GameState`
pub data GameState : Type 0 where
  idle dealing dealing_dealer select_first_card wait_player : GameState

-- `Room::Player`
pub record Player : Type 0 where
  pub nick : String
  pub email : String
  pub rest : List ℤ
  pub ready : Bool
  pub offline : Bool
  pub offline_time : ℤ
  pub last_use_voice_time : ℤ

abbrev pub PlayerMap : Type 0
PlayerMap = List (ℕ × Player)

pub record Room : Type 0 where
  pub id : ℕ
  pub state : State
  pub title : String
  pub owner : ℕ
  pub max_players : ℤ
  pub curr_players : ℕ
  pub players : PlayerMap
  pub seq : List ℕ
  pub last_win : Option ℕ
  pub last_direction : ℤ
  pub last_update_seat_time : ℤ
  pub game_state : GameState
  pub deal_turn : ℕ
  pub cursor : ℤ
  pub direction : ℤ
  pub dealer : Option ℕ
  pub timer : ℤ
  pub heap : List ℤ
  pub last : ℤ
  pub last_chg_color : ℤ
  pub draw : ℕ
  pub last_can_report : Option ℕ
  pub can_play_ahead : Bool
  pub history : List ℤ
  pub stater : GameStater

-- The constants of src/game/room.cpp; timers count ticks of 100 ms.
abbrev pub card_set_count : ℕ
card_set_count = 3

abbrev pub player_start_card_count : ℕ
player_start_card_count = 7

abbrev pub dealer_start_card_ext_count : ℕ
dealer_start_card_ext_count = 2

abbrev pub timer_dealing_interval : ℕ
timer_dealing_interval = 5

abbrev pub timer_select_first_card_interval : ℕ
timer_select_first_card_interval = 2

abbrev pub timer_player_thinking : ℕ
timer_player_thinking = 200

abbrev pub punish_for_last_func_card : ℕ
punish_for_last_func_card = 2

abbrev pub punish_for_no_uno : ℕ
punish_for_no_uno = 2

-- `TIMER_PLAYER_THINKING * 0.85`
abbrev pub player_auto_play_thinking_time : ℕ
player_auto_play_thinking_time = 170

-- The source hands these to `std::chrono::microseconds`.
abbrev pub player_auto_tick_offline_time : ℕ
player_auto_tick_offline_time = 1 * 60 * 1000

abbrev pub player_auto_play_offline_time : ℕ
player_auto_play_offline_time = 1 * 60 * 1000

-- A write through `auto& player = it->second`.
unfoldable pub set_rest : ℕ → List ℤ → PlayerMap → PlayerMap
set_rest uid rest players = elim (lookup uid players) [
  | none ↦ players
  | some p ↦ insert uid (record p { rest = rest }) players
]

-- `for (auto& [uid, player] : room->players) { player.rest.clear(); player.ready = false; }`
unfoldable pub clear_players : PlayerMap → PlayerMap
clear_players = map_values (λ p. record p { rest = []; ready = false })

hand_sizes : PlayerMap → List ℕ
hand_sizes [] = []
hand_sizes ((uid, p) ∷ ps) = length p.rest ∷ hand_sizes ps

-- What the statistics read of a room.
unfoldable pub view : Room → RoomView
unfolding hand_sizes
view r = record {
  uids = keys r.players;
  hands = hand_sizes r.players;
  last_chg_color = r.last_chg_color;
}

pub record PlayerSnapshot : Type 0 where
  pub nick : String
  pub email : String
  pub rest_count : ℕ
  pub ready : Bool
  pub offline : Bool

pub record RoomSnapshot : Type 0 where
  pub id : ℕ
  pub state : State
  pub title : String
  pub owner : ℕ
  pub max_players : ℤ
  pub curr_players : ℕ
  pub last_win : Option ℕ
  pub game_state : GameState
  pub cursor : ℤ
  pub direction : ℤ
  pub dealer : Option ℕ
  pub timer : ℤ
  pub last : ℤ
  pub last_chg_color : ℤ
  pub draw : ℕ
  pub last_can_report : Option ℕ
  pub can_play_ahead : Bool
  pub players : List (ℕ × PlayerSnapshot)
  pub my_cards : List ℤ
  pub seq : List ℕ

abbrev pub player_snapshot : Player → PlayerSnapshot
player_snapshot p = record {
  nick = p.nick;
  email = p.email;
  rest_count = length p.rest;
  ready = p.ready;
  offline = p.offline;
}

unfoldable pub get_player_snapshot : Room → ℕ → Outcome PlayerSnapshot
get_player_snapshot r uid = do p ← assert_some (lookup uid r.players); ok (player_snapshot p)

unfoldable pub player_snapshots : PlayerMap → List (ℕ × PlayerSnapshot)
player_snapshots [] = []
player_snapshots ((uid, p) ∷ ps) = (uid, player_snapshot p) ∷ player_snapshots ps

-- `none` for the uid -1: no hand is shown.
unfoldable pub cards_of : Room → Option ℕ → Outcome (List ℤ)
cards_of r none = ok []
cards_of r (some uid) = do p ← assert_some (lookup uid r.players); ok p.rest

unfoldable pub get_snapshot : Room → Option ℕ → Outcome RoomSnapshot
unfolding player_snapshots cards_of
get_snapshot r uid = do
  my_cards ← cards_of r uid
  ok (record {
    id = r.id;
    state = r.state;
    title = r.title;
    owner = r.owner;
    max_players = r.max_players;
    curr_players = r.curr_players;
    last_win = r.last_win;
    game_state = r.game_state;
    cursor = r.cursor;
    direction = r.direction;
    dealer = r.dealer;
    timer = r.timer;
    last = r.last;
    last_chg_color = r.last_chg_color;
    draw = r.draw;
    last_can_report = r.last_can_report;
    can_play_ahead = r.can_play_ahead;
    players = player_snapshots r.players;
    my_cards = my_cards;
    seq = r.seq;
  })
