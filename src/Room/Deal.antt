-- ===== src/Room/Deal.antt =====
-- `game_player_deal_card` and `game_player_report_no_uno` of src/game/room.cpp.
use uno_server.Common.{
  ℕ, zero, suc, Bool, true, false, not, Option, none, some, List, [], ◌∷◌, ◌++◌, ◌==◌, ltb,
  if◌then◌else◌, ℤ, pos, ltb_ℤ, length, lookup, contains, Outcome, ok, assert_that, assert_some,
  ◌>>=◌, ◌>>◌,
}
use uno_server.Stater.Types.{DealReason}
use uno_server.Stater.Events.{StatCall}
use uno_server.Room.Types.{PlayerMap, GameState, set_rest, punish_for_no_uno, timer_player_thinking}
use uno_server.Room.Random.{Random}
use uno_server.Room.Notify.{World, Event, send_event, broadcast_event, stat_event}
use uno_server.Room.Cursor.{seat, game_cursor_move}
use uno_server.Room.Heap.{game_card_heap_deal}

-- `player.rest` through the reference to the player.
unfoldable pub hand_of : ℕ → PlayerMap → List ℤ
hand_of uid players = elim (lookup uid players) [ none ↦ [] | some p ↦ p.rest ]

-- `player.rest.push_back(c)`
unfoldable pub give : ℕ → ℤ → World → World
give uid c w =
    let r = w.room in
    record w {
      room = record r { players = set_rest uid (hand_of uid r.players ++ c ∷ []) r.players };
    }

-- `c > 0`
unfoldable pub is_positive : ℤ → Bool
is_positive c = ltb_ℤ (pos 0) c

-- The loop of the deal, with `arr` as it stands before a round.
unfoldable pub deal_cards : Random → ℕ → ℕ → List ℤ → World → List ℤ × World
deal_cards R zero uid arr w = (arr, w)
deal_cards R (suc n) uid arr w =
    let (c, w1) = game_card_heap_deal R w in
    deal_cards R n uid (if is_positive c then arr ++ c ∷ [] else arr)
      (if is_positive c then give uid c w1 else w1)

-- The messages of the deal: the other players get the cards as well.
unfoldable pub tell_deal : ℕ → List ℤ → DealReason → Option ℕ → World → Outcome World
tell_deal uid arr reason req_by w = do
  let n = length (hand_of uid w.room.players)
  let event = Event.card_deal n (length arr) (some arr) reason req_by w.room.cursor
  let call = StatCall.card_deal uid n (length arr) arr reason req_by w.room.cursor
  w1 ← stat_event true call (send_event uid (some uid) event w)
  stat_event false call (broadcast_event (some uid) event w1)

unfoldable pub deal_out : Random → World → ℕ → ℕ → DealReason → Option ℕ → Outcome World
deal_out R w uid n reason req_by =
    let (arr, w1) = deal_cards R n uid [] w in tell_deal uid arr reason req_by w1

-- The event `thinking` for the room as it stands.
unfoldable pub broadcast_thinking : World → Outcome World
broadcast_thinking w = do
  uid ← seat w.room
  let r = w.room
  ok (
      broadcast_event none
        (Event.thinking uid r.timer r.last r.last_chg_color r.direction r.draw r.last_can_report
          r.can_play_ahead)
        w)

-- The end of a turn after a normal deal.
unfoldable pub pass_turn : World → Outcome World
pass_turn w =
    let r = game_cursor_move w.room none w.room.direction in
    broadcast_thinking (record w {
      room = record r {
        game_state = GameState.wait_player;
        timer = pos timer_player_thinking;
        last_can_report = none;
        can_play_ahead = false;
      };
    })

-- A deal that the player in turn asked for: the pending penalty, or one card.
unfoldable pub deal_normal : Random → World → ℕ → Option ℕ → Outcome World
deal_normal R w uid req_by = do
  let r = w.room
  let penalty = not (r.draw == 0)
  w1 ←
      deal_out R (record w { room = record r { draw = 0 } }) uid (if penalty then r.draw else 1)
        (if penalty then DealReason.draw else DealReason.normal) req_by
  pass_turn w1

-- A deal that the system imposes.
unfoldable pub deal_punishment : Random → World → ℕ → ℕ → DealReason → Option ℕ → Outcome World
deal_punishment R w uid n reason req_by = do assert_that (ltb 0 n); deal_out R w uid n reason req_by

unfoldable pub is_normal : DealReason → Bool
is_normal DealReason.normal = true
is_normal DealReason.draw = false
is_normal DealReason.bad_uno = false
is_normal DealReason.report = false
is_normal DealReason.last_card = false

unfoldable pub with_result {ℓ} : {A B : Type ℓ} → A → Outcome B → Outcome (A × B)
with_result a m = m >>= λ b. ok (a, b)

unfoldable pub game_player_deal_card :
    Random → World → ℕ → ℕ → DealReason → Option ℕ → Outcome (Bool × World)
unfolding is_normal
game_player_deal_card R w uid n req_reason req_by = do
  cur ← seat w.room
  player ← assert_some (lookup uid w.room.players)
  if is_normal req_reason
      then (if not (cur == uid)
          then ok (false, w)
          else with_result true (deal_normal R w uid req_by))
      else with_result true (deal_punishment R w uid n req_reason req_by)

-- The punishment of the player who may be reported.
unfoldable pub punish_no_uno : Random → World → ℕ → Option ℕ → Outcome (Bool × World)
punish_no_uno R w uid none = ok (false, w)
punish_no_uno R w uid (some be_punished) = do
  assert_that (contains be_punished w.room.players)
  let r = w.room
  res ←
      game_player_deal_card R (record w { room = record r { last_can_report = none } }) be_punished
        punish_for_no_uno DealReason.report (some uid)
  ok (true, res.1)

unfoldable pub game_player_report_no_uno : Random → World → ℕ → Outcome (Bool × World)
game_player_report_no_uno R w uid = do
  player ← assert_some (lookup uid w.room.players)
  punish_no_uno R w uid w.room.last_can_report
