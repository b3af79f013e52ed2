-- ===== src/Room/Laws/Table.antt =====
-- A table at which a game can go on, and the facts that the calls of src/game/room.cpp rest on.
use uno_server.Common.{
  ℕ, zero, suc, ◌<◌, ◌≡◌, sym, ◌∙◌, Bool, true, false, ◌&&◌, ◌||◌, Option, some, List, [], ◌∷◌,
  arith, ◌==◌, ℤ, pos, abs, length, get_elem?, get_elem?_in_range, All, contains, keys, ok,
}
use mathlib.Core.Path.{subst}
use uno_server.Card.{low3, low4, shr3, is_valid_color, func_draw2, func_draw4}
use uno_server.Room.Types.{Room, PlayerMap}
use uno_server.Room.Cursor.{seat, base_cursor, game_cursor_move}
use uno_server.Room.Deal.{is_positive}
use uno_server.Room.Laws.Piles.{total, IsMember, IsMember-of_keys}
use uno_server.Room.Laws.Turn.{move_times_in_range}
use uno_server.Room.Laws.Dealt.{Positive, Framed}

-- The colour bits of a card name a colour.
unfoldable pub has_color : ℤ → Bool
has_color c = is_valid_color (pos (low3 c))

-- A positive number with a colour, as all cards of the card set are.
unfoldable pub is_card : ℤ → Bool
is_card c = is_positive c && has_color c

-- The function code of a card.
unfoldable pub func_of : ℤ → ℕ
func_of c = low4 (shr3 c)

-- A card that asks the next player to draw.
unfoldable pub is_draw_card : ℤ → Bool
is_draw_card c = func_of c == func_draw2 || func_of c == func_draw4

-- Everybody has a seat, the cursor is at one, all piles hold cards only, a penalty stands on a draw
-- card, who can be reported is in the room, and the statistics have an entry for every player.
pub record IsTable (r : Room) : Type 0 where
  pub seated : r.curr_players ≡ length r.seq
  pub spot : ℕ
  pub at_spot : r.cursor ≡ pos spot
  pub in_seat : spot < length r.seq
  pub members : All (λ u. IsMember u r.players) r.seq
  pub cards_only : (x : ℤ) → is_card x ≡ false → total x r ≡ 0
  pub last_color : has_color r.last ≡ true
  pub penalty : 0 < r.draw → is_draw_card r.last ≡ true
  pub reportable : (u : ℕ) → r.last_can_report ≡ some u → IsMember u r.players
  pub counted : (u : ℕ) → IsMember u r.players → contains u r.stater.round_stat ≡ true

pub All-at :
    (players : PlayerMap) (xs : List ℕ) (i u : ℕ)
    → All (λ u. IsMember u players) xs
    → get_elem? xs i ≡ some u
    → IsMember u players
All-at players [] i u a h = absurd (ground arith)
All-at players (x ∷ xs) zero u a h = ground arith
All-at players (x ∷ xs) (suc i) u a h = All-at players xs i u a.1 h

pub All-keys :
    (m n : PlayerMap) (xs : List ℕ)
    → keys m ≡ keys n
    → All (λ u. IsMember u m) xs
    → All (λ u. IsMember u n) xs
All-keys m n [] e a = tt
All-keys m n (x ∷ xs) e a = (IsMember-of_keys x m n e a.0, All-keys m n xs e a.1)

-- At a table it is somebody's turn.
pub seat_some : {r : Room} → IsTable r → (u : ℕ) × (seat r ≡ ok u) × IsMember u r.players
unfolding seat
seat_some {r} t =
    let (u, e) = get_elem?_in_range r.seq t.spot t.in_seat in
    (u, rw (t.at_spot, seat) (rw e), All-at r.players r.seq t.spot u t.members e)

pub table-Positive : {r : Room} → IsTable r → Positive r
unfolding total is_card
table-Positive t x p = omega (arith, t.cards_only x (rw p))

-- Cards that change hands keep the table.
IsTable-piles :
    {r : Room} (heap history : List ℤ) (players : PlayerMap)
    → IsTable r
    → keys players ≡ keys r.players
    → ((x : ℤ)
        → total x (record r { heap = heap; history = history; players = players }) ≡ total x r)
    → IsTable (record r { heap = heap; history = history; players = players })
IsTable-piles {r} heap history players t e h = record {
  seated = t.seated;
  spot = t.spot;
  at_spot = t.at_spot;
  in_seat = t.in_seat;
  members = All-keys r.players players r.seq (sym e) t.members;
  cards_only = λ x p. h x ∙ t.cards_only x p;
  last_color = t.last_color;
  penalty = t.penalty;
  reportable = λ u p. IsMember-of_keys u r.players players (sym e) (t.reportable u p);
  counted = λ u p. t.counted u (IsMember-of_keys u players r.players e p);
}

pub IsTable-Framed :
    {r r' : Room}
    → IsTable r
    → Framed r r'
    → keys r'.players ≡ keys r.players
    → ((x : ℤ) → total x r' ≡ total x r)
    → IsTable r'
unfolding total
IsTable-Framed {r} {r'} t f e h =
    subst IsTable (sym f) (IsTable-piles r'.heap r'.history r'.players t e h)

-- The cursor goes from a seat to a seat.
pub game_cursor_move_in_range :
    (r : Room) (base : Option ℕ) (step : ℤ) (i : ℕ)
    → r.curr_players ≡ length r.seq
    → base_cursor r base ≡ pos i
    → i < length r.seq
    → (j : ℕ) × ((game_cursor_move r base step).cursor ≡ pos j) × (j < length r.seq)
unfolding game_cursor_move
game_cursor_move_in_range r base step i seated e h =
    rw (e, seated) (move_times_in_range (abs step) (length r.seq) i step h)
