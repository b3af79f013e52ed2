-- ===== src/Room/Laws/Kept/Deals.antt =====
-- Calls that deal cards in src/game/room.cpp keep who is in the room, and the seats.
use uno_server.Common.{
  ℕ, zero, suc, ◌≡◌, refl, Bool, true, false, not, ◌==◌, ltb, if◌then◌else◌, Option, none, some,
  Option-cases, Bool-cases, inl, inr, List, [], ◌∷◌, ◌++◌, ℤ, length, lookup, contains, keys,
  pop_back, Outcome, assert_that, assert_some,
}
use uno_server.Stater.Types.{DealReason}
use uno_server.Room.Types.{Room, PlayerMap, set_rest, punish_for_no_uno}
use uno_server.Room.Random.{Random}
use uno_server.Room.Notify.{World}
use uno_server.Room.Cursor.{seat, game_cursor_move}
use uno_server.Room.Heap.{refill, take_card, game_card_heap_deal}
use uno_server.Room.Deal.{
  hand_of, give, is_positive, deal_cards, deal_out, broadcast_thinking, pass_turn, deal_normal,
  deal_punishment, is_normal, with_result, game_player_deal_card, punish_no_uno,
  game_player_report_no_uno,
}
use uno_server.Room.Laws.Piles.{keys-insert}
use uno_server.Room.Laws.Quiet.{broadcast_event-Quiet, tell_deal-Tells}
use uno_server.Room.Laws.Kept.{
  Kept-refl, Kept-trans, same_shape, Ends, Ends-bind, Ends-any, Ends-if, Ends-from, Ends-Tells,
  Keeps, KeepsToo, Keeps-Quiet, returns, stops,
}

pub keys-set_rest :
    (uid : ℕ) (rest : List ℤ) (players : PlayerMap)
    → keys (set_rest uid rest players) ≡ keys players
unfolding set_rest
keys-set_rest uid rest players = elim (Option-cases (lookup uid players)) [
  | inl e ↦ rw (set_rest, e) refl
  | inr (p, e) ↦ rw (set_rest, e) (keys-insert uid (record p { rest = rest }) p players e)
]

take_card-Keeps : (w : World) → Keeps w.room (take_card w).1
unfolding take_card
take_card-Keeps w = elim (Option-cases (pop_back w.room.heap)) [
  | inl e ↦ rw (take_card, e) (Kept-refl w.room)
  | inr ((c, heap), e) ↦ rw (take_card, e) (same_shape refl refl refl refl refl)
]

heap_deal-Keeps : (R : Random) (w : World) → Keeps w.room (game_card_heap_deal R w).1
unfolding game_card_heap_deal refill
heap_deal-Keeps R w = elim (Bool-cases (length w.room.heap == 0)) [
  | inl e ↦
      rw (game_card_heap_deal, e)
        (Kept-trans (same_shape refl refl refl refl refl) (take_card-Keeps (refill R w)))
  | inr e ↦ rw (game_card_heap_deal, e) (take_card-Keeps w)
]

give-Keeps : (uid : ℕ) (c : ℤ) (w : World) → Keeps w.room (give uid c w)
unfolding give
give-Keeps uid c w =
    same_shape refl refl refl refl
      (keys-set_rest uid (hand_of uid w.room.players ++ c ∷ []) w.room.players)

give_if-Keeps :
    (b : Bool) (uid : ℕ) (c : ℤ) (w : World) → Keeps w.room (if b then give uid c w else w)
give_if-Keeps true uid c w = give-Keeps uid c w
give_if-Keeps false uid c w = Kept-refl w.room

deal_cards-Keeps :
    (R : Random) (n uid : ℕ) (arr : List ℤ) (w : World) → Keeps w.room (deal_cards R n uid arr w).1
unfolding deal_cards
deal_cards-Keeps R zero uid arr w = Kept-refl w.room
deal_cards-Keeps R (suc n) uid arr w =
    let drawn = game_card_heap_deal R w in
    let c = drawn.0 in
    Kept-trans (heap_deal-Keeps R w) (
      Kept-trans (give_if-Keeps (is_positive c) uid c drawn.1) (
        deal_cards-Keeps R n uid (if is_positive c then arr ++ c ∷ [] else arr)
          (if is_positive c then give uid c drawn.1 else drawn.1)))

deal_out-Keeps :
    (R : Random) (w : World) (uid n : ℕ) (reason : DealReason) (req_by : Option ℕ)
    → Ends (Keeps w.room) (deal_out R w uid n reason req_by)
unfolding deal_out
deal_out-Keeps R w uid n reason req_by =
    let dealt = deal_cards R n uid [] w in
    Ends-from (deal_cards-Keeps R n uid [] w)
      (Ends-Tells (tell_deal-Tells uid dealt.0 reason req_by dealt.1))

pub broadcast_thinking-Keeps : (w : World) → Ends (Keeps w.room) (broadcast_thinking w)
unfolding broadcast_thinking
broadcast_thinking-Keeps w =
    Ends-any (seat w.room) _ (λ uid. returns _ (Keeps-Quiet (broadcast_event-Quiet none _ w)))

pass_turn-Keeps : (w : World) → Ends (Keeps w.room) (pass_turn w)
unfolding pass_turn game_cursor_move
pass_turn-Keeps w = Ends-from (same_shape refl refl refl refl refl) (broadcast_thinking-Keeps _)

deal_normal-Keeps :
    (R : Random) (w : World) (uid : ℕ) (req_by : Option ℕ)
    → Ends (Keeps w.room) (deal_normal R w uid req_by)
unfolding deal_normal
deal_normal-Keeps R w uid req_by =
    Ends-bind (deal_out R (record w { room = record w.room { draw = 0 } }) uid _ _ req_by) pass_turn
      (Ends-from (same_shape refl refl refl refl refl)
        (deal_out-Keeps R (record w { room = record w.room { draw = 0 } }) uid _ _ req_by))
      (λ w1 k. Ends-from k (pass_turn-Keeps w1))

Ends-with_result :
    {r : Room} {m : Outcome World} (b : Bool)
    → Ends (Keeps r) m
    → Ends (KeepsToo r) (with_result b m)
unfolding with_result
Ends-with_result b (returns u k) = returns (b, u) k
Ends-with_result b (stops e) = stops e

pub game_player_deal_card-Keeps :
    (R : Random) (w : World) (uid n : ℕ) (reason : DealReason) (req_by : Option ℕ)
    → Ends (KeepsToo w.room) (game_player_deal_card R w uid n reason req_by)
unfolding game_player_deal_card deal_punishment
game_player_deal_card-Keeps R w uid n reason req_by = Ends-any (seat w.room) _ (λ cur.
    Ends-any (assert_some (lookup uid w.room.players)) _ (λ player.
      Ends-if (is_normal reason) _ _
        (Ends-if (not (cur == uid)) _ _ (returns (false, w) (Kept-refl w.room))
          (Ends-with_result true (deal_normal-Keeps R w uid req_by)))
        (Ends-with_result true
          (Ends-any (assert_that (ltb 0 n)) _ (λ _. deal_out-Keeps R w uid n reason req_by)))))

punish_no_uno-Keeps :
    (R : Random) (w : World) (uid : ℕ) (o : Option ℕ)
    → Ends (KeepsToo w.room) (punish_no_uno R w uid o)
unfolding punish_no_uno
punish_no_uno-Keeps R w uid none = returns (false, w) (Kept-refl w.room)
punish_no_uno-Keeps R w uid (some u) = Ends-any (assert_that (contains u w.room.players)) _ (λ _.
    Ends-bind (game_player_deal_card R _ u punish_for_no_uno DealReason.report (some uid)) _
      (game_player_deal_card-Keeps R (record w { room = record w.room { last_can_report = none } })
        u punish_for_no_uno DealReason.report (some uid))
      (λ res k. returns (true, res.1) (Kept-trans (same_shape refl refl refl refl refl) k)))

pub game_player_report_no_uno-Keeps :
    (R : Random) (w : World) (uid : ℕ) → Ends (KeepsToo w.room) (game_player_report_no_uno R w uid)
unfolding game_player_report_no_uno
game_player_report_no_uno-Keeps R w uid =
    Ends-any (assert_some (lookup uid w.room.players)) _
      (λ player. punish_no_uno-Keeps R w uid w.room.last_can_report)
