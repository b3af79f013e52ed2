-- ===== src/Room/Laws/Round.antt =====
-- `game_player_card_play` of src/game/room.cpp at a table: the end of the turn and the whole call.
use Prim.Native.Nat.{min}
use uno_server.Common.{
  ℕ, zero, suc, ◌+◌, ◌-◌, ◌<◌, ◌≡◌, refl, sym, Bool, true, not, ◌&&◌, Option, none, some, List, [],
  ◌∷◌, arith, ◌==◌, if◌then◌else◌, ℤ, pos, negate, length, length-append, index_of, index_of_sound,
  erase_at, get_elem?, ok, Bool-cases, Option-cases, inl, inr,
}
use uno_server.Card.{color_all, func_reverse, is_action, is_func_card}
use uno_server.Card.Laws.{get_func_total}
use uno_server.Room.Types.{Room, GameState, timer_player_thinking}
use uno_server.Room.Notify.{World}
use uno_server.Room.Cursor.{base_cursor, game_cursor_move}
use uno_server.Room.Deal.{hand_of}
use uno_server.Room.Play.{Play, move_card, next_turn}
use uno_server.Room.Laws.Quiet.{broadcast_thinking-Tells}
use uno_server.Room.Laws.Piles.{total, IsMember, hand_of-set_rest}
use uno_server.Room.Laws.Draw.{stock}
use uno_server.Room.Laws.Table.{IsTable, func_of, seat_some, game_cursor_move_in_range}
use uno_server.Room.Laws.Legal.{color_of}
use uno_server.Room.Laws.Playing.{raised, fine}

-- The turn starts from a seat, whoever plays.
base_cursor_in_range :
    {r : Room} (base : Option ℕ)
    → IsTable r
    → (i : ℕ) × (base_cursor r base ≡ pos i) × (i < length r.seq)
unfolding base_cursor
base_cursor_in_range {r} none t = (t.spot, t.at_spot, t.in_seat)
base_cursor_in_range {r} (some uid) t = elim (Option-cases (index_of uid r.seq)) [
  | inl e ↦ (t.spot, rw (e, base_cursor) (t.at_spot), t.in_seat)
  | inr (i, e) ↦ (i, rw (e, base_cursor) refl, (index_of_sound uid r.seq i e).0)
]

-- The room after the turn went on.
abbrev pub went_on : Room → ℕ → ℤ → Bool → Play → Room
went_on r uid step with_uno p =
    let r' = game_cursor_move r (if p.ahead then some uid else none) step in
    record r' {
      game_state = GameState.wait_player;
      timer = pos timer_player_thinking;
      can_play_ahead = true;
      last_can_report = if p.need_uno && not with_uno then some uid else none;
    }

pub went_on-IsTable :
    {r : Room} (uid : ℕ) (step : ℤ) (with_uno : Bool) (p : Play)
    → IsTable r
    → IsMember uid r.players
    → IsTable (went_on r uid step with_uno p)
unfolding total game_cursor_move
went_on-IsTable {r} uid step with_uno p t m =
    let base = if p.ahead then some uid else none in
    let (i, at_base, h) = base_cursor_in_range base t in
    let (j, e, hj) = game_cursor_move_in_range r base step i t.seated at_base h in
    record {
      seated = t.seated;
      spot = j;
      at_spot = e;
      in_seat = hj;
      members = t.members;
      cards_only = t.cards_only;
      last_color = t.last_color;
      penalty = t.penalty;
      reportable = reportable;
      counted = t.counted;
    }
  where
    reportable :
        (u : ℕ)
        → (if p.need_uno && not with_uno then some uid else none) ≡ some u
        → IsMember u r.players
    reportable u e = elim (Bool-cases (p.need_uno && not with_uno)) [
      | inl k ↦ let same : uid ≡ u = cc (rw k at e) in rw (sym same) m
      | inr k ↦ absurd (cc (rw k at e))
    ]

pub next_turn_lem :
    (w : World) (uid : ℕ) (step : ℤ) (with_uno : Bool) (p : Play)
    → IsTable w.room
    → IsMember uid w.room.players
    → (w' : World) × (next_turn w uid step with_uno p ≡ ok w')
      × (w'.room ≡ went_on w.room uid step with_uno p)
unfolding next_turn game_cursor_move
next_turn_lem w uid step with_uno p t m =
    let (u, e, mu) = seat_some (went_on-IsTable uid step with_uno p t m) in
    let (w', told, q) =
      broadcast_thinking-Tells (record w { room = went_on w.room uid step with_uno p }) u e in
    (w', told, q.same_room)

-- How many cards the punishments deal, with `n` cards in stock: first one for the false call, then
-- one for the action card.
abbrev pub fined : Bool → Bool → ℕ → ℕ
fined first second n = let a = min (fine first) n in a + min (fine second) (n - a)

-- A call of UNO that does not fit the hand, and an action card as the last one.
abbrev pub false_uno : Room → ℕ → Bool → Bool
false_uno r uid with_uno = not (length (hand_of uid r.players) == 2) && with_uno

abbrev pub last_action : Room → ℕ → ℤ → Bool
last_action r uid c = (length (hand_of uid r.players) == 1) && is_action (func_of c)

-- The room when the card lies on the table and the punishments are dealt.
pub record PutDown (r : Room) (uid : ℕ) (c chg_color : ℤ) (with_uno : Bool) (r' : Room)
    : Type 0 where
  pub table : IsTable r'
  pub member : IsMember uid r'.players
  pub conserved : (x : ℤ) → total x r' ≡ total x r
  pub last : r'.last ≡ c
  pub chosen : r'.last_chg_color ≡ (if color_of c == color_all then chg_color else pos 0)
  pub seats : r'.seq ≡ r.seq
  pub draw : r'.draw ≡ raised (func_of c) r.draw
  pub direction :
      r'.direction ≡ (if func_of c == func_reverse then negate r.direction else r.direction)
  pub size :
      length (hand_of uid r'.players) + 1
      ≡ length (hand_of uid r.players)
        + fined (false_uno r uid with_uno) (last_action r uid c) (stock r + 1)
  pub cursor :
      (base : Option ℕ) (step : ℤ)
      → (game_cursor_move r' base step).cursor ≡ (game_cursor_move r base step).cursor

pub is_func_card-ok : (c : ℤ) → is_func_card c ≡ ok (is_action (func_of c))
unfolding is_func_card func_of
is_func_card-ok c = rw (get_func_total c) refl

length-erase_at :
    (i : ℕ) (xs : List ℤ) (c : ℤ) → get_elem? xs i ≡ some c → length (erase_at i xs) + 1 ≡ length xs
length-erase_at i [] c h = absurd (ground arith)
length-erase_at zero (x ∷ xs) c h = omega arith
length-erase_at (suc i) (x ∷ xs) c h = omega (arith, length-erase_at i xs c h)

-- One card less in the hand, and one more in the stock.
pub move_card-size :
    (r : Room) (uid : ℕ) (c chg_color : ℤ) (p : Play)
    → IsMember uid r.players
    → get_elem? (hand_of uid r.players) p.index ≡ some c
    → (length (hand_of uid (move_card r uid c chg_color p).players) + 1
        ≡ length (hand_of uid r.players))
      × (stock (move_card r uid c chg_color p) ≡ stock r + 1)
unfolding move_card
move_card-size r uid c chg_color p m at_index =
    let rest = erase_at p.index (hand_of uid r.players) in
    (
      rw (hand_of-set_rest uid rest r.players m)
          (length-erase_at p.index (hand_of uid r.players) c at_index),
      omega (arith, length-append r.history (c ∷ [])),
    )
