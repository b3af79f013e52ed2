-- ===== src/Room/Laws/Kept/Leaves.antt =====
-- What a leave in src/game/room.cpp changes of who is in the room, and of the seats.
use uno_server.Common.{
  ℕ, ◌-◌, ◌≡◌, refl, ap, Bool, true, false, Bool-cases, Option-cases, inl, inr, pos, not, ◌&&◌,
  Option, none, some, ◌==◌, if◌then◌else◌, lookup, erase, index_of, erase_at, assert_that,
}
use uno_server.Stater.Types.{LeftReason}
use uno_server.Stater.Events.{StatCall}
use uno_server.Room.Types.{Room, Player, GameState, timer_dealing_interval}
use uno_server.Room.Random.{Random}
use uno_server.Room.Notify.{World, Event, broadcast_event, stat_event}
use uno_server.Room.Cursor.{seat, game_cursor_move}
use uno_server.Room.Leave.{
  is_playing, may_leave, is_waiting, return_hand, is_at, skip_leaver, close_seat, leave_seat,
  first_seat, pass_ownership, is_winner, refresh, end_leave, after_leave, game_player_leave,
}
use uno_server.Room.Laws.Quiet.{broadcast_event-Quiet}
use uno_server.Room.Laws.Kept.{
  Kept, Kept-refl, Kept-trans, same_shape, Keeps, Keeps-Quiet, Ends, returns, stops, Ends-bind,
  Ends-any, Ends-if, Ends-from, Ends-map,
}
use uno_server.Room.Laws.Kept.Deals.{keys-set_rest}
use uno_server.Room.Laws.Kept.Games.{stat_event-Keeps, game_over-Keeps}

return_hand-Keeps : (R : Random) (uid : ℕ) (w : World) → Keeps w.room (return_hand R uid w)
unfolding return_hand
return_hand-Keeps R uid w = elim (Bool-cases (is_playing w.room.state)) [
  | inl e ↦ rw e (same_shape refl refl refl refl (keys-set_rest uid _ w.room.players))
  | inr e ↦ rw e (Kept-refl w.room)
]

-- The seats without the one at an index.
abbrev pub vacated : Option ℕ → Room → Room
vacated none r = r
vacated (some i) r = record r { seq = erase_at i r.seq }

close_seat-Keeps : (i : ℕ) {r r' : Room} → Kept r r' → Kept (vacated (some i) r) (close_seat i r')
unfolding close_seat
close_seat-Keeps i k =
    same_shape k.same_id k.same_count k.same_max (ap (erase_at i) k.same_seats) k.same_keys

skip_leaver-Keeps : (i : ℕ) (r : Room) → Ends (Kept r) (skip_leaver i r)
unfolding skip_leaver game_cursor_move
skip_leaver-Keeps i r =
    let r1 = game_cursor_move r none r.direction in
    Ends-any (assert_that (not (is_at r1.cursor i))) _
      (λ _. returns _ (either (is_waiting r1.game_state)))
  where
    either :
        (b : Bool)
        → Kept r (
            if b
            then record (game_cursor_move r none r.direction) {
              game_state = GameState.wait_player;
              timer = pos timer_dealing_interval;
            }
            else game_cursor_move r none r.direction)
    either true = same_shape refl refl refl refl refl
    either false = same_shape refl refl refl refl refl

leave_seat-Keeps : (r : Room) (o : Option ℕ) → Ends (Kept (vacated o r)) (leave_seat r o)
unfolding leave_seat
leave_seat-Keeps r none = returns r (Kept-refl r)
leave_seat-Keeps r (some i) =
    Ends-if (is_playing r.state && is_at r.cursor i) _ _
      (Ends-bind (skip_leaver i r) _ (skip_leaver-Keeps i r)
        (λ r1 k. returns _ (close_seat-Keeps i k)))
      (returns _ (close_seat-Keeps i (Kept-refl r)))

pass_ownership-Keeps : (uid : ℕ) (w : World) → Ends (Keeps w.room) (pass_ownership uid w)
unfolding pass_ownership
pass_ownership-Keeps uid w =
    Ends-if (w.room.owner == uid) _ _
      (Ends-any (first_seat w.room) _ (λ heir.
        let w1 = record w { room = record w.room { owner = heir } } in
        returns _ (
          Kept-trans (same_shape refl refl refl refl refl)
            (Keeps-Quiet (broadcast_event-Quiet (some uid) (Event.owner_changed heir) w1)))))
      (returns w (Kept-refl w.room))

end_leave-Keeps : (w : World) → Ends (Keeps w.room) (end_leave w)
unfolding end_leave refresh
end_leave-Keeps w =
    Ends-if (is_playing w.room.state && (w.room.curr_players == 1)) _ _
      (Ends-any (first_seat w.room) _ (λ winner. game_over-Keeps w winner))
      (Ends-any (seat w.room) _ (λ uid. returns _ (Keeps-Quiet (broadcast_event-Quiet none _ w))))

after_leave-Keeps :
    (w : World) (uid : ℕ) (reason : LeftReason) → Ends (Keeps w.room) (after_leave w uid reason)
unfolding after_leave
after_leave-Keeps w uid reason =
    Ends-bind (pass_ownership uid w) _ (pass_ownership-Keeps uid w) (λ w1 k1.
      let r = w1.room in
      let w2 = record w1 {
        room = record r { last_win = if is_winner r.last_win uid then none else r.last_win };
      } in
      let told = broadcast_event (some uid) (Event.player_left reason) w2 in
      let k2 : Kept w.room told.room = Kept-trans k1 (
        Kept-trans (same_shape refl refl refl refl refl)
          (Keeps-Quiet (broadcast_event-Quiet (some uid) (Event.player_left reason) w2))) in
      Ends-bind (stat_event false (StatCall.player_left uid reason) told) _
        (Ends-from k2 (stat_event-Keeps false (StatCall.player_left uid reason) told))
        (λ w3 k3. Ends-from k3 (end_leave-Keeps w3)))

-- The room of the player who has left, before the others hear of it.
abbrev pub removed : ℕ → Room → Room
removed uid r = record r { players = erase uid r.players; curr_players = r.curr_players - 1 }

-- The leaver was in the room, and a seat is given up if there is one.
pub record Left (uid : ℕ) (r r' : Room) : Type 0 where
  pub start : Room
  pub vacant : Room
  pub kept : Kept r start
  pub was_there : (p : Player) × (lookup uid r.players ≡ some p)
  pub seat_gone : Kept (vacated (index_of uid start.seq) start) vacant
  pub rest : Kept (removed uid vacant) r'

pub game_player_leave-Left :
    (R : Random) (w : World) (uid : ℕ) (reason : LeftReason)
    → Ends (λ w'. Left uid w.room w'.room) (game_player_leave R w uid reason)
unfolding game_player_leave
game_player_leave-Left R w uid reason = elim (Option-cases (lookup uid w.room.players)) [
  | inl e ↦ rw e (stops _)
  | inr (p, e) ↦
      let w1 = return_hand R uid w in
      let o = index_of uid w1.room.seq in
      let left : (r r' : Room)
          → Kept (vacated o w1.room) r
          → Kept (removed uid r) r'
          → Left uid w.room r' =
        λ r r' k k'. record {
          start = w1.room;
          vacant = r;
          kept = return_hand-Keeps R uid w;
          was_there = (p, e);
          seat_gone = k;
          rest = k';
        } in
      rw e (
        Ends-any (assert_that (may_leave w.room.game_state)) _ (λ _.
          Ends-bind (leave_seat w1.room o) _ (leave_seat-Keeps w1.room o) (λ r k.
            let w2 = record w1 { room = removed uid r } in
            Ends-if (w2.room.curr_players == 0) _ _
              (returns w2 (left r w2.room k (Kept-refl w2.room)))
              (Ends-map (after_leave w2 uid reason) (after_leave-Keeps w2 uid reason)
                (λ w3 k3. left r w3.room k k3)))))
]
