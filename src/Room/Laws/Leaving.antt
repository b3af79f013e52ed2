-- ===== src/Room/Laws/Leaving.antt =====
-- `game_player_leave` of src/game/room.cpp in a room without a game.
use uno_server.Common.{
  ℕ, suc, ◌-◌, ◌<◌, ◌≡◌, ◌≢◌, refl, ap, ◌∙◌, false, ◌&&◌, none, some, arith, ◌==◌, ==_ne,
  if◌then◌else◌, negsuc, ◌-ℤ◌, ◌+ℤ◌, index_of, erase, ok, fault, out_of_bounds,
}
use uno_server.Stater.Types.{LeftReason}
use uno_server.Room.Types.{Room, State, GameState}
use uno_server.Room.Random.{Random}
use uno_server.Room.Notify.{World, Event, broadcast_event}
use uno_server.Room.Cursor.{seat}
use uno_server.Room.Leave.{
  is_playing, return_hand, is_above, close_seat, leave_seat, pass_ownership, refresh, is_winner,
  end_leave, after_leave, game_player_leave,
}
use uno_server.Room.Laws.Quiet.{broadcast_event-Quiet, stat_event-player_left}
use uno_server.Room.Laws.Piles.{IsMember, member_some}

refresh-negsuc : (w : World) (k : ℕ) → w.room.cursor ≡ negsuc k → refresh w ≡ fault out_of_bounds
unfolding refresh seat
refresh-negsuc w k e = rw e refl

end_leave-idle :
    (w : World) (k : ℕ)
    → w.room.state ≡ State.idle
    → w.room.cursor ≡ negsuc k
    → end_leave w ≡ fault out_of_bounds
unfolding end_leave is_playing
end_leave-idle w k idle e =
    let no_game : (is_playing w.room.state && (w.room.curr_players == 1)) ≡ false =
      ap (λ (s : State). is_playing s && (w.room.curr_players == 1)) idle in
    rw no_game (refresh-negsuc w k e)

after_leave-idle :
    (w : World) (uid k : ℕ) (reason : LeftReason)
    → w.room.owner ≢ uid
    → w.room.state ≡ State.idle
    → w.room.cursor ≡ negsuc k
    → after_leave w uid reason ≡ fault out_of_bounds
unfolding after_leave pass_ownership
after_leave-idle w uid k reason ne idle e =
    let r = w.room in
    let w2 : World = record w {
      room = record r { last_win = if is_winner r.last_win uid then none else r.last_win };
    } in
    let w3 = broadcast_event (some uid) (Event.player_left reason) w2 in
    let same = (broadcast_event-Quiet (some uid) (Event.player_left reason) w2).same_room in
    let end =
      end_leave-idle w3 k (ap (λ (z : Room). z.state) same ∙ idle)
        (ap (λ (z : Room). z.cursor) same ∙ e) in
    rw (==_ne w.room.owner uid ne, stat_event-player_left false w3 uid reason) end

-- A negative cursor is above every seat, so it stays negative.
close_seat-negsuc :
    (r : Room) (i k : ℕ) → r.cursor ≡ negsuc k → (close_seat i r).cursor ≡ negsuc (suc k)
unfolding close_seat is_above ◌-ℤ◌ ◌+ℤ◌
close_seat-negsuc r i k e = rw e (ground arith)

-- Without a game nothing comes back to the heap, and no turn is passed on.
return_hand-idle :
    (R : Random) (uid : ℕ) (w : World) → w.room.state ≡ State.idle → return_hand R uid w ≡ w
unfolding return_hand is_playing
return_hand-idle R uid w idle =
    let no_game : is_playing w.room.state ≡ false = ap is_playing idle in rw no_game refl

leave_seat-idle :
    (r : Room) (i : ℕ) → r.state ≡ State.idle → leave_seat r (some i) ≡ ok (close_seat i r)
unfolding leave_seat is_playing
leave_seat-idle r i idle =
    let no_game : is_playing r.state ≡ false = ap is_playing idle in rw no_game refl

-- In an idle room whose cursor is negative, as it is after a game, the leave of a seated member who
-- is not the owner, with somebody left behind, indexes the seats out of bounds.
pub game_player_leave-idle :
    (R : Random) (w : World) (uid i k : ℕ) (reason : LeftReason)
    → IsMember uid w.room.players
    → w.room.state ≡ State.idle
    → w.room.game_state ≡ GameState.idle
    → w.room.cursor ≡ negsuc k
    → index_of uid w.room.seq ≡ some i
    → 1 < w.room.curr_players
    → w.room.owner ≢ uid
    → game_player_leave R w uid reason ≡ fault out_of_bounds
unfolding game_player_leave close_seat
game_player_leave-idle R w uid i k reason m idle no_game e at more ne =
    let (p, found) = member_some uid w.room.players m in
    let r0 = close_seat i w.room in
    let w2 : World = record w {
      room = record r0 {
        players = erase uid r0.players;
        curr_players = r0.curr_players - 1;
        game_state = GameState.idle;
      };
    } in
    let stays : (w.room.curr_players - 1 == 0) ≡ false = ground arith in
    let end = after_leave-idle w2 uid (suc k) reason ne idle (close_seat-negsuc w.room i k e) in
    simp
      (found, no_game, return_hand-idle R uid w idle, at, leave_seat-idle w.room i idle, stays, end)
