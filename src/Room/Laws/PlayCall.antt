-- ===== src/Room/Laws/PlayCall.antt =====
-- `game_player_card_play` of src/game/room.cpp at a table: what a call comes to.

use mathlib.Core.Path.{subst}
use uno_server.Common.{
  ℕ, ◌+◌, ◌<◌, ◌≡◌, ◌⊎◌, refl, sym, ap, ◌∙◌, Bool, true, false, not, ◌&&◌, none, some, List, [],
  ◌∷◌, arith, ◌==◌, if◌then◌else◌, ℤ, pos, ◌+ℤ◌, negate, length, ok, inl, inr,
}
use uno_server.Card.{color_all, func_reverse, func_skip, is_action}
use uno_server.Room.Types.{Room, GameState, State, timer_player_thinking}
use uno_server.Room.Random.{Random, IsRandom, count}
use uno_server.Room.Notify.{World}
use uno_server.Room.Cursor.{seat, game_cursor_move}
use uno_server.Room.Deal.{hand_of}
use uno_server.Room.Over.{game_over}
use uno_server.Room.Play.{Play, play_step, next_turn, end_play, game_player_card_play}
use uno_server.Room.Laws.Piles.{total, IsMember}
use uno_server.Room.Laws.Draw.{stock}
use uno_server.Room.Laws.Table.{IsTable, func_of}
use uno_server.Room.Laws.Legal.{color_of}
use uno_server.Room.Laws.Check.{Legal, Checked, check_play_lem}
use uno_server.Room.Laws.Ending.{Ended, game_over_lem}
use uno_server.Room.Laws.Playing.{raised}
use uno_server.Room.Laws.Round.{
  PutDown, fined, false_uno, last_action, next_turn_lem, went_on, went_on-IsTable,
}
use uno_server.Room.Laws.CardPlay.{apply_play-PutDown}

-- How far the turn moves: two seats after a skip, back after a reverse.
abbrev pub step_of : ℕ → ℤ → ℤ
step_of func direction =
    if func == func_skip
    then direction +ℤ direction
    else if func == func_reverse
    then negate direction
    else direction

-- The room after a play that does not win. A black card leaves the colour that was chosen for it, and
-- any other card none.
pub record GoesOn (r : Room) (uid : ℕ) (c chg_color : ℤ) (with_uno : Bool) (r' : Room)
    : Type 0 where
  pub table : IsTable r'
  pub conserved : (x : ℤ) → total x r' ≡ total x r
  pub last : r'.last ≡ c
  pub chosen : r'.last_chg_color ≡ (if color_of c == color_all then chg_color else pos 0)
  pub seats : r'.seq ≡ r.seq
  pub draw : r'.draw ≡ raised (func_of c) r.draw
  pub direction :
      r'.direction ≡ (if func_of c == func_reverse then negate r.direction else r.direction)
  pub size :
      length (hand_of uid r'.players) + 1
      ≡ length (hand_of uid r.players)
        + fined (false_uno r uid with_uno) (last_action r uid c) (stock r + 1)
  pub has_cards : 0 < length (hand_of uid r'.players)
  pub waits : r'.game_state ≡ GameState.wait_player
  pub timer : r'.timer ≡ pos timer_player_thinking
  pub may_ahead : r'.can_play_ahead ≡ true
  pub report :
      r'.last_can_report
      ≡ (if (length (hand_of uid r.players) == 2) && not with_uno then some uid else none)
  pub cur : ℕ
  pub turn : seat r ≡ ok cur
  pub next :
      r'.cursor
      ≡ (game_cursor_move r
          (if not (uid == cur) then some uid else none)
          (step_of (func_of c) r.direction)).cursor

-- The room after a play that wins: the last card, no action card, without a call of UNO.
pub record Wins (r : Room) (uid : ℕ) (c : ℤ) (with_uno : Bool) (r' : Room) : Type 0 where
  pub one_card : length (hand_of uid r.players) ≡ 1
  pub no_action : is_action (func_of c) ≡ false
  pub no_call : with_uno ≡ false
  pub idle : r'.state ≡ State.idle
  pub winner : r'.last_win ≡ some uid
  pub no_cards : (x : ℤ) → total x r' ≡ 0
  pub kept_direction :
      r'.last_direction ≡ (if func_of c == func_reverse then negate r.direction else r.direction)

hand-cases : (xs : List ℤ) → (xs ≡ []) ⊎ (0 < length xs)
hand-cases [] = inl refl
hand-cases (x ∷ xs) = inr (omega arith)

end_play-empty :
    (w : World) (uid : ℕ) (step : ℤ) (with_uno : Bool) (p : Play)
    → hand_of uid w.room.players ≡ []
    → end_play w uid step with_uno p ≡ game_over w uid
unfolding end_play
end_play-empty w uid step with_uno p e = rw e refl

end_play-some :
    (w : World) (uid : ℕ) (step : ℤ) (with_uno : Bool) (p : Play) (xs : List ℤ)
    → hand_of uid w.room.players ≡ xs
    → 0 < length xs
    → end_play w uid step with_uno p ≡ next_turn w uid step with_uno p
unfolding end_play
end_play-some w uid step with_uno p [] e h = absurd (omega arith)
end_play-some w uid step with_uno p (x ∷ xs) e h = rw e refl

-- With a card in stock a fine is no empty one.
no_fine :
    (first second : Bool) (n : ℕ)
    → fined first second (n + 1) ≡ 0
    → (first ≡ false) × (second ≡ false)
no_fine true second n h = absurd (omega arith)
no_fine false true n h = absurd (omega arith)
no_fine false false n h = (refl, refl)

won :
    {r : Room} (uid : ℕ) (c chg_color : ℤ) (with_uno : Bool) (r4 r' : Room)
    → 0 < length (hand_of uid r.players)
    → PutDown r uid c chg_color with_uno r4
    → hand_of uid r4.players ≡ []
    → Ended r4 uid r'
    → Wins r uid c with_uno r'
won {r} uid c chg_color with_uno r4 r' held d empty e =
    let zero_left : length (hand_of uid r4.players) ≡ 0 = rw empty refl in
    let n = d.size in
    let one : length (hand_of uid r.players) ≡ 1 = omega arith in
    let (first, second) =
      no_fine (false_uno r uid with_uno) (last_action r uid c) (stock r) (omega arith) in
    record {
      one_card = one;
      no_action = rw one at second;
      no_call = rw one at first;
      idle = e.idle;
      winner = e.winner;
      no_cards = e.no_cards;
      kept_direction = e.kept_direction ∙ d.direction;
    }

held_length : (c : ℤ) (xs : List ℤ) → 0 < count c xs → 0 < length xs
unfolding count
held_length c [] h = absurd (omega arith)
held_length c (x ∷ xs) h = omega arith

went_on-GoesOn :
    {r : Room} (uid : ℕ) (c chg_color : ℤ) (with_uno : Bool) (p : Play) (r4 r' : Room)
    → Checked r uid c chg_color p
    → PutDown r uid c chg_color with_uno r4
    → 0 < length (hand_of uid r4.players)
    → r' ≡ went_on r4 uid (play_step r p) with_uno p
    → GoesOn r uid c chg_color with_uno r'
unfolding total game_cursor_move play_step
went_on-GoesOn {r} uid c chg_color with_uno p r4 r' k d h e =
    let t = went_on-IsTable uid (play_step r p) with_uno p d.table d.member in
    record {
      table = subst IsTable (sym e) t;
      conserved = λ x. ap (total x) e ∙ d.conserved x;
      last = ap (λ (z : Room). z.last) e ∙ d.last;
      chosen = ap (λ (z : Room). z.last_chg_color) e ∙ d.chosen;
      seats = ap (λ (z : Room). z.seq) e ∙ d.seats;
      draw = ap (λ (z : Room). z.draw) e ∙ d.draw;
      direction = ap (λ (z : Room). z.direction) e ∙ d.direction;
      size = ap (λ (z : Room). length (hand_of uid z.players) + 1) e ∙ d.size;
      has_cards = subst (λ (z : Room). 0 < length (hand_of uid z.players)) (sym e) h;
      waits = ap (λ (z : Room). z.game_state) e;
      timer = ap (λ (z : Room). z.timer) e;
      may_ahead = ap (λ (z : Room). z.can_play_ahead) e;
      report =
          ap (λ (z : Room). z.last_can_report) e
          ∙ ap (λ (b : Bool). if b && not with_uno then some uid else none) k.last_two;
      cur = k.legal.cur;
      turn = k.legal.turn;
      next =
          let far = step_of (func_of c) r.direction in
          ap (λ (z : Room). z.cursor) e
          ∙ d.cursor (if p.ahead then some uid else none) (step_of p.func r.direction)
          ∙ ap
              (λ (f : ℕ).
                (game_cursor_move r (if p.ahead then some uid else none)
                  (step_of f r.direction)).cursor)
              k.its_func
          ∙ ap (λ (b : Bool). (game_cursor_move r (if b then some uid else none) far).cursor)
              k.out_of_turn;
    }

module _ {R : Random} (laws : IsRandom R) where
  ended :
      (w4 : World) (w : World) (uid : ℕ) (c chg_color : ℤ) (with_uno : Bool) (p : Play)
      → Checked w.room uid c chg_color p
      → PutDown w.room uid c chg_color with_uno w4.room
      → (w' : World) × (end_play w4 uid (play_step w.room p) with_uno p ≡ ok w')
        × (GoesOn w.room uid c chg_color with_uno w'.room ⊎ Wins w.room uid c with_uno w'.room)
  ended w4 w uid c chg_color with_uno p k d = elim (hand-cases (hand_of uid w4.room.players)) [
    | inl e ↦
        let (w', done, over) = game_over_lem w4 uid (d.table.counted uid d.member) in
        (
          w',
          end_play-empty w4 uid (play_step w.room p) with_uno p e ∙ done,
          inr (
              won uid c chg_color with_uno w4.room w'.room
                (held_length c (hand_of uid w.room.players) k.legal.held) d e over),
        )
    | inr h ↦
        let (w', done, same) =
          next_turn_lem w4 uid (play_step w.room p) with_uno p d.table d.member in
        (
          w',
          end_play-some w4 uid (play_step w.room p) with_uno p (hand_of uid w4.room.players) refl h
              ∙ done,
          inl (went_on-GoesOn uid c chg_color with_uno p w4.room w'.room k d h same),
        )
  ]

  -- At a table a member's call returns. It refuses and changes nothing if the play is not legal. A
  -- legal play either goes on at a table with the same cards and seats, the effects of the card (the
  -- colour chosen for a black one, the penalty, the direction), the fines and the turn as the rules
  -- have it, or it wins, with a last card that is no action card.
  pub game_player_card_play_lem :
      (w : World) (uid : ℕ) (c chg_color : ℤ) (with_uno : Bool)
      → IsTable w.room
      → IsMember uid w.room.players
      → ((game_player_card_play R w uid c with_uno chg_color ≡ ok (false, w))
          × (Legal w.room uid c chg_color → ⊥))
        ⊎ (Legal w.room uid c chg_color
            × ((w' : World) × (game_player_card_play R w uid c with_uno chg_color ≡ ok (true, w'))
                × (GoesOn w.room uid c chg_color with_uno w'.room
                    ⊎ Wins w.room uid c with_uno w'.room)))
  unfolding game_player_card_play
  game_player_card_play_lem w uid c chg_color with_uno t m =
      elim (check_play_lem uid c chg_color t m) [
        | inl (e, illegal) ↦ inl (rw e refl, illegal)
        | inr (p, e, k) ↦
            let (w4, applied, d) = apply_play-PutDown laws w uid c chg_color with_uno p t m k in
            let (w', done, result) = ended w4 w uid c chg_color with_uno p k d in
            inr (k.legal, (w', rw (e, applied, done) refl, result))
      ]
