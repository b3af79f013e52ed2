-- ===== src/Room/Laws/Kept.antt =====
-- What no call of a game in src/game/room.cpp changes: who is in the room, and the seats.
pub mod Deals
pub mod Games
pub mod Leaves
use uno_server.Common.{
  ℕ, zero, suc, ◌+◌, ◌≡◌, ◌≢◌, refl, sym, ◌∙◌, Bool, true, false, not, ◌&&◌, ◌||◌, ◌==◌, ltb, leb,
  if◌then◌else◌, Option, none, some, Option-cases, Bool-cases, inl, inr, List, [], ◌∷◌, ◌++◌, ℤ,
  pos, negsuc, ◌==ℤ◌, length, lookup, insert, contains, keys, pop_back, arith, ap, map_values,
  negate, ◌*◌, Outcome, Fault, assertion, ok, fault, assert_that, assert_some, ◌>>=◌,
}
use uno_server.Stater.Types.{DealReason, GameStater}
use uno_server.Stater.Events.{StatCall}
use uno_server.Stater.Dispatch.{call_stat_event}
use uno_server.Room.Types.{
  Room, Player, PlayerMap, view, set_rest, clear_players, punish_for_no_uno,
  punish_for_last_func_card, player_start_card_count, dealer_start_card_ext_count,
}
use uno_server.Room.Random.{Random}
use uno_server.Room.Notify.{World, Event, round_flow, send_event, broadcast_event, stat_event}
use uno_server.Room.Cursor.{seat, game_cursor_move}
use uno_server.Room.Heap.{refill, take_card, game_card_heap_deal}
use uno_server.Room.Deal.{
  hand_of, give, is_positive, deal_cards, tell_deal, deal_out, broadcast_thinking, pass_turn,
  deal_normal, deal_punishment, is_normal, with_result, game_player_deal_card, punish_no_uno,
  game_player_report_no_uno,
}
use uno_server.Card.{is_func_card}
use uno_server.Card.Deck.{card_set}
use uno_server.Stater.Display.{get_stat}
use uno_server.Room.Leave.{is_playing}
use uno_server.Room.Start.{reset_game, choose_dealer, dealer_cursor, full_heap, set_up, game_start}
use uno_server.Room.Over.{clear_game, send_stats, game_over}
use uno_server.Room.Play.{
  Play, check_play, move_card, play_step, tell_play, punish_if, next_turn, end_play, apply_play,
  apply_checked, game_player_card_play,
}
use uno_server.Room.Laws.Piles.{keys-insert}
use uno_server.Room.Laws.Quiet.{
  Quiet, send_event-Quiet, broadcast_event-Quiet, Tells, tell_deal-Tells, tell_play-Tells,
}

-- The room has the same id, bounds, seats and players.
pub record Kept (r r' : Room) : Type 0 where
  pub same_id : r'.id ≡ r.id
  pub same_count : r'.curr_players ≡ r.curr_players
  pub same_max : r'.max_players ≡ r.max_players
  pub same_seats : r'.seq ≡ r.seq
  pub same_keys : keys r'.players ≡ keys r.players

pub Kept-refl : (r : Room) → Kept r r
Kept-refl r = record {
  same_id = refl;
  same_count = refl;
  same_max = refl;
  same_seats = refl;
  same_keys = refl;
}

pub same_shape :
    {r r' : Room}
    → r'.id ≡ r.id
    → r'.curr_players ≡ r.curr_players
    → r'.max_players ≡ r.max_players
    → r'.seq ≡ r.seq
    → keys r'.players ≡ keys r.players
    → Kept r r'
same_shape i c m s k = record {
  same_id = i;
  same_count = c;
  same_max = m;
  same_seats = s;
  same_keys = k;
}

pub Kept-trans : {r s t : Room} → Kept r s → Kept s t → Kept r t
Kept-trans p q = record {
  same_id = q.same_id ∙ p.same_id;
  same_count = q.same_count ∙ p.same_count;
  same_max = q.same_max ∙ p.same_max;
  same_seats = q.same_seats ∙ p.same_seats;
  same_keys = q.same_keys ∙ p.same_keys;
}

-- If the call returns, then with such a result.
pub data Ends {A : Type 0} (P : A → Type 0) : Outcome A → Type 0 where
  returns : (a : A) → P a → Ends P (ok a)
  stops : (e : Fault) → Ends P (fault e)

pub Ends-bind :
    {A B : Type 0} {P : A → Type 0} {Q : B → Type 0} (m : Outcome A) (f : A → Outcome B)
    → Ends P m
    → ((a : A) → P a → Ends Q (f a))
    → Ends Q (m >>= f)
Ends-bind _ f (returns a p) k = k a p
Ends-bind _ f (stops e) k = stops e

pub Ends-any :
    {A B : Type 0} {Q : B → Type 0} (m : Outcome A) (f : A → Outcome B)
    → ((a : A) → Ends Q (f a))
    → Ends Q (m >>= f)
Ends-any (ok a) f k = k a
Ends-any (fault e) f k = stops e

pub Ends-map :
    {A : Type 0} {P Q : A → Type 0} (m : Outcome A) → Ends P m → ((a : A) → P a → Q a) → Ends Q m
Ends-map _ (returns a p) f = returns a (f a p)
Ends-map _ (stops e) f = stops e

pub Ends-if :
    {A : Type 0} {P : A → Type 0} (b : Bool) (m n : Outcome A)
    → Ends P m
    → Ends P n
    → Ends P (if b then m else n)
Ends-if true m n p q = p
Ends-if false m n p q = q

-- A call that keeps the room of the world it starts from.
abbrev pub Keeps : Room → World → Type 0
Keeps r w = Kept r w.room

abbrev pub KeepsToo : Room → Bool × World → Type 0
KeepsToo r res = Kept r res.1.room

pub Keeps-Quiet : {w w' : World} → Quiet w w' → Keeps w.room w'
Keeps-Quiet {w} q = rw (q.same_room) (Kept-refl w.room)

-- A call that goes on from another world with the same room's shape.
pub Ends-from : {r s : Room} {m : Outcome World} → Kept r s → Ends (Keeps s) m → Ends (Keeps r) m
Ends-from k (returns u e) = returns u (Kept-trans k e)
Ends-from k (stops e) = stops e

pub Ends-Tells : {w : World} {m : Outcome World} → Tells w m → Ends (Keeps w.room) m
Ends-Tells {w} (w', e, q) = rw e (returns w' (Keeps-Quiet q))
