-- ===== src/Room/Laws/Playing.antt =====
-- `game_player_card_play` of src/game/room.cpp at a table: the effect of a card and the punishments.

use mathlib.Core.Path.{subst}
use uno_server.Common.{
  ℕ, ◌+◌, ◌<◌, ◌≡◌, refl, sym, ◌∙◌, Bool, true, false, not, none, some, List, [], ◌∷◌, arith, ◌==◌,
  if◌then◌else◌, ℤ, erase_at, get_elem?, keys, ok, Bool-cases, inl, inr,
}
use uno_server.Card.{func_draw2, func_draw4}
use uno_server.Stater.Types.{DealReason}
use uno_server.Room.Types.{Room, set_rest, punish_for_last_func_card}
use uno_server.Room.Random.{Random, IsRandom, count}
use uno_server.Room.Notify.{World}
use uno_server.Room.Deal.{hand_of, deal_cards}
use uno_server.Room.Play.{Play, move_card, punish_if}
use uno_server.Room.Laws.Piles.{
  total, IsMember, count-append, count-erase_at, hand_count-set_rest, keys-set_rest,
  IsMember-of_keys,
}
use uno_server.Room.Laws.Dealt.{Dealt, deal_cards-Dealt}
use uno_server.Room.Laws.Table.{IsTable, All-keys, func_of, is_draw_card, table-Positive}
use uno_server.Room.Laws.Legal.{Follows, MayPlay}
use uno_server.Room.Laws.Check.{Checked, held-is_card, is_card-has_color}
use uno_server.Room.Laws.Dealing.{deal_punishment_lem}

-- While a penalty is pending, only draw cards are legal.
Follows-is_draw_card :
    (r : Room) (c : ℤ)
    → 0 < r.draw
    → is_draw_card r.last ≡ true
    → Follows r c
    → is_draw_card c ≡ true
unfolding is_draw_card
Follows-is_draw_card r c h d (Follows.same_card e) = rw e d
Follows-is_draw_card r c h d (Follows.same_color z e) = absurd (omega arith)
Follows-is_draw_card r c h d (Follows.same_func z e) = absurd (omega arith)
Follows-is_draw_card r c h d (Follows.black_card z e) = absurd (omega arith)
Follows-is_draw_card r c h d (Follows.wish z e k) = absurd (omega arith)
Follows-is_draw_card r c h d (Follows.draw2_on_draw2 e n k) = rw k refl
Follows-is_draw_card r c h d (Follows.color_draw4_on_draw2 e k n m) = rw k refl
Follows-is_draw_card r c h d (Follows.black_draw4_on_draw2 e k n m) = rw k refl
Follows-is_draw_card r c h d (Follows.draw4_on_draw4 e n k) = rw k refl

MayPlay-is_draw_card :
    (r : Room) (c : ℤ) (ahead : Bool)
    → 0 < r.draw
    → is_draw_card r.last ≡ true
    → MayPlay r c ahead
    → is_draw_card c ≡ true
MayPlay-is_draw_card r c true h d m = rw (m.1) d
MayPlay-is_draw_card r c false h d m = Follows-is_draw_card r c h d m

-- The penalty after a card of function `func`.
abbrev pub raised : ℕ → ℕ → ℕ
raised func draw =
    if func == func_draw2 then draw + 2 else if func == func_draw4 then draw + 4 else draw

raised_lem :
    (c : ℤ) (draw : ℕ)
    → (0 < draw → is_draw_card c ≡ true)
    → 0 < raised (func_of c) draw
    → is_draw_card c ≡ true
unfolding is_draw_card
raised_lem c draw h p = elim (Bool-cases (func_of c == func_draw2)) [
  | inl e ↦ rw e refl
  | inr e ↦ elim (Bool-cases (func_of c == func_draw4)) [
    | inl k ↦ rw (e, k) refl
    | inr k ↦ h (rw (e, k) at p)
  ]
]

-- The card that is put down leaves a table, and no card is lost.
pub move_card-total :
    (r : Room) (uid : ℕ) (c chg_color : ℤ) (p : Play) (x : ℤ)
    → IsMember uid r.players
    → get_elem? (hand_of uid r.players) p.index ≡ some c
    → total x (move_card r uid c chg_color p) ≡ total x r
unfolding move_card total count
move_card-total r uid c chg_color p x m at_index = omega (
  arith,
  count-append x r.history (c ∷ []),
  count-erase_at x c p.index (hand_of uid r.players) at_index,
  hand_count-set_rest uid (erase_at p.index (hand_of uid r.players)) x r.players m,
)

pub move_card-IsTable :
    {r : Room} (uid : ℕ) (c chg_color : ℤ) (p : Play)
    → IsTable r
    → IsMember uid r.players
    → Checked r uid c chg_color p
    → IsTable (move_card r uid c chg_color p)
unfolding move_card
move_card-IsTable {r} uid c chg_color p t m k =
    let rest = erase_at p.index (hand_of uid r.players) in
    let players = set_rest uid rest r.players in
    let same : keys players ≡ keys r.players = keys-set_rest uid rest r.players m in
    let stack = λ (h : 0 < r.draw).
      MayPlay-is_draw_card r c (not (uid == k.legal.cur)) h (t.penalty h) k.legal.may in
    record {
      seated = t.seated;
      spot = t.spot;
      at_spot = t.at_spot;
      in_seat = t.in_seat;
      members = All-keys r.players players r.seq (sym same) t.members;
      cards_only = λ x h. move_card-total r uid c chg_color p x m k.at_index ∙ t.cards_only x h;
      last_color = is_card-has_color c (held-is_card uid c t m k.legal.held);
      penalty =
          λ h. raised_lem c r.draw stack (subst (λ (f : ℕ). 0 < raised f r.draw) k.its_func h);
      reportable = λ u e. IsMember-of_keys u r.players players (sym same) (t.reportable u e);
      counted = λ u e. t.counted u (IsMember-of_keys u players r.players same e);
    }

-- A fine of the two cards of `punish_if`.
abbrev pub fine : Bool → ℕ
fine due = if due then punish_for_last_func_card else 0

module _ {R : Random} (laws : IsRandom R) where
  pub punish_if_lem :
      (due : Bool) (uid : ℕ) (w : World)
      → IsTable w.room
      → IsMember uid w.room.players
      → (w' : World) × (out : List ℤ) × (punish_if due R uid w ≡ ok w')
        × Dealt w (fine due) uid [] out w'
  unfolding punish_if deal_cards
  punish_if_lem false uid w t m =
      (w, [], refl, deal_cards-Dealt laws 0 uid [] w m (table-Positive t))
  punish_if_lem true uid w t m =
      let (w', out, e, d) =
        deal_punishment_lem laws w uid punish_for_last_func_card DealReason.last_card none
          (λ q. absurd (cc)) t m (omega arith) in
      (w', out, rw e refl, d)
