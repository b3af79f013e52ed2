-- ===== src/Room/Laws/Ending.antt =====
-- `game_over` of src/game/room.cpp.
use uno_server.Common.{
  ℕ, ◌≡◌, refl, sym, ap, ◌∙◌, true, false, Option, none, some, [], ◌∷◌, ◌++◌, arith, ℤ, negsuc,
  keys, contains, lookup, ok, assert_some, ◌>>=◌, Option-cases, inl, inr,
}
use mathlib.Core.Path.{subst}
use uno_server.Stater.Types.{GameStater}
use uno_server.Stater.Events.{StatCall}
use uno_server.Stater.Display.{on_player_win, get_stat, get_winner_stealer}
use uno_server.Stater.Dispatch.{RoomView, call_stat_event}
use uno_server.Room.Types.{Room, State, GameState, PlayerMap, clear_players, view}
use uno_server.Room.Random.{count}
use uno_server.Room.Notify.{World, Event, Message, broadcast_event, stat_event}
use uno_server.Room.Over.{clear_game, send_stats, game_over}
use uno_server.Room.Laws.Quiet.{broadcast_event-Quiet}
use uno_server.Room.Laws.Piles.{total, hand_count}

found_ok {ℓ κ} :
    {A : Type ℓ} {B : Type κ} (o : Option A) (a : A)
    → o ≡ some a
    → (b : B) → (b' : B) × ((assert_some o >>= λ _. ok b) ≡ ok b')
found_ok o a e b = (b, rw e refl)

-- The statistics take the winner, who is counted.
on_player_win_ok :
    (g : GameStater) (uid : ℕ)
    → contains uid g.round_stat ≡ true
    → (g' : GameStater) × (on_player_win g uid ≡ ok g')
unfolding on_player_win
on_player_win_ok g uid m = elim (Option-cases (lookup uid g.round_stat)) [
  | inl e ↦ absurd (ground arith)
  | inr (s, e) ↦ found_ok (lookup uid g.round_stat) s e _
]

call_stat_event-player_win :
    (v : RoomView) (g : GameStater) (uid : ℕ)
    → call_stat_event false v (StatCall.player_win uid) g ≡ on_player_win g uid
unfolding call_stat_event
call_stat_event-player_win v g uid = refl

stat_event-player_win :
    (w : World) (uid : ℕ)
    → contains uid w.room.stater.round_stat ≡ true
    → (g : GameStater) × (stat_event false (StatCall.player_win uid) w
        ≡ ok (let r = w.room in record w { room = record r { stater = g } }))
unfolding stat_event
stat_event-player_win w uid m =
    let (g, e) = on_player_win_ok w.room.stater uid m in
    (g, rw (call_stat_event-player_win (view w.room) w.room.stater uid, e) refl)

send_stats-room :
    (ps : PlayerMap) (w : World)
    → (send_stats ps w).room
      ≡ (let r = w.room in record r { stater = (send_stats ps w).room.stater })
unfolding send_stats
send_stats-room [] w = refl
send_stats-room ((uid, p) ∷ ps) w =
    let r = w.room in
    let (stat, g) = get_stat uid r.stater in
    send_stats-room ps (record w {
      room = record r { stater = g };
      sent = w.sent ++ Message.round_flow uid stat ∷ [];
    })

keys-clear_players : (ps : PlayerMap) → keys (clear_players ps) ≡ keys ps
unfolding clear_players
keys-clear_players [] = refl
keys-clear_players ((uid, p) ∷ ps) = ap (λ ks. uid ∷ ks) (keys-clear_players ps)

pub hand_count-clear_players : (x : ℤ) (ps : PlayerMap) → hand_count x (clear_players ps) ≡ 0
unfolding hand_count clear_players count
hand_count-clear_players x [] = refl
hand_count-clear_players x ((uid, p) ∷ ps) = omega (arith, hand_count-clear_players x ps)

-- A room in which `uid` has just won the game, and from which `r` comes.
pub record Ended (r : Room) (uid : ℕ) (r' : Room) : Type 0 where
  pub idle : r'.state ≡ State.idle
  pub no_game : r'.game_state ≡ GameState.idle
  pub winner : r'.last_win ≡ some uid
  pub no_turn : r'.cursor ≡ negsuc 0
  pub kept_direction : r'.last_direction ≡ r.direction
  pub same_keys : keys r'.players ≡ keys r.players
  pub same_seats : r'.seq ≡ r.seq
  pub no_cards : (x : ℤ) → total x r' ≡ 0

clear_game-Ended :
    (r : Room) (uid : ℕ) (g : GameStater)
    → Ended r uid (record (clear_game (some uid) r) { stater = g })
unfolding clear_game total count
clear_game-Ended r uid g = record {
  idle = refl;
  no_game = refl;
  winner = refl;
  no_turn = refl;
  kept_direction = refl;
  same_keys = keys-clear_players r.players;
  same_seats = refl;
  no_cards = λ x. omega (arith, hand_count-clear_players x r.players);
}

-- For a winner whom the statistics count, the end of a game returns; the room is idle, has no
-- cards, remembers the winner and the direction, and keeps its players and seats.
pub game_over_lem :
    (w : World) (uid : ℕ)
    → contains uid w.room.stater.round_stat ≡ true
    → (w' : World) × (game_over w uid ≡ ok w') × Ended w.room uid w'.room
unfolding game_over clear_game
game_over_lem w uid m =
    let start : World = record w { room = clear_game (some uid) w.room } in
    let w0 = broadcast_event none (Event.player_win uid) start in
    let q0 = broadcast_event-Quiet none (Event.player_win uid) start in
    let m0 : contains uid w0.room.stater.round_stat ≡ true = rw (q0.same_room) m in
    let (g, e) = stat_event-player_win w0 uid m0 in
    let w1 : World = record w0 { room = record w0.room { stater = g } } in
    let w2 = send_stats w1.room.players w1 in
    let g2 = w2.room.stater in
    let told = Event.game_stat g2.display_stat uid (get_winner_stealer g2) in
    let same =
      (broadcast_event-Quiet none told w2).same_room
      ∙ send_stats-room w1.room.players w1
      ∙ ap (λ (z : Room). record z { stater = g2 }) q0.same_room in
    (
      broadcast_event none told w2,
      rw e refl,
      subst (λ (z : Room). Ended w.room uid z) (sym same) (clear_game-Ended w.room uid g2),
    )
