-- ===== src/Room/Laws/Dealing.antt =====
-- `game_player_deal_card` and `game_player_report_no_uno` of src/game/room.cpp.
use Prim.Native.Nat.{min}
use uno_server.Common.{
  ℕ, ◌+◌, ◌<◌, ◌≡◌, ◌≢◌, refl, sym, ap, ◌∙◌, true, false, not, Option, none, List, [], ◌++◌, arith,
  ◌==◌, if◌then◌else◌, ℤ, pos, length, keys, ok, ==_self, ==_ne, lt→ltb,
}
use mathlib.Core.Path.{subst}
use uno_server.Stater.Types.{DealReason}
use uno_server.Room.Types.{Room, GameState, timer_player_thinking}
use uno_server.Room.Random.{Random, IsRandom}
use uno_server.Room.Notify.{World}
use uno_server.Room.Cursor.{seat, game_cursor_move}
use uno_server.Room.Deal.{
  hand_of, deal_cards, deal_out, pass_turn, deal_normal, deal_punishment, with_result, is_normal,
  game_player_deal_card,
}
use uno_server.Room.Laws.Quiet.{Quiet, tell_deal-Tells, broadcast_thinking-Tells}
use uno_server.Room.Laws.Piles.{total, IsMember, member_some}
use uno_server.Room.Laws.Draw.{stock}
use uno_server.Room.Laws.Dealt.{Framed, Dealt, Positive, deal_cards-Dealt}
use uno_server.Room.Laws.Table.{
  IsTable, seat_some, table-Positive, IsTable-Framed, game_cursor_move_in_range,
}

Dealt-Quiet :
    {w : World} {n uid : ℕ} {arr out : List ℤ} {w1 w2 : World}
    → Dealt w n uid arr out w1
    → Quiet w1 w2
    → Dealt w n uid arr out w2
Dealt-Quiet {w} {n} {uid} {arr} {out} {w1} {w2} d q = record {
  frame = subst (λ (r : Room). Framed w.room r) (sym q.same_room) d.frame;
  sessions = q.same_sessions ∙ d.sessions;
  new = d.new;
  reported = d.reported;
  hand = ap (λ (r : Room). hand_of uid r.players) q.same_room ∙ d.hand;
  size = d.size;
  left = ap (λ (r : Room). stock r + length d.new) q.same_room ∙ d.left;
  same_keys = ap (λ (r : Room). keys r.players) q.same_room ∙ d.same_keys;
  conserved = λ x. ap (total x) q.same_room ∙ d.conserved x;
}

module _ {R : Random} (laws : IsRandom R) where
  -- Dealing to a member always succeeds.
  pub deal_out_lem :
      (w : World) (uid n : ℕ) (reason : DealReason) (req_by : Option ℕ)
      → IsMember uid w.room.players
      → Positive w.room
      → (w' : World) × (out : List ℤ) × (deal_out R w uid n reason req_by ≡ ok w')
        × Dealt w n uid [] out w'
  unfolding deal_out
  deal_out_lem w uid n reason req_by m p =
      let arr = (deal_cards R n uid [] w).0 in
      let w1 = (deal_cards R n uid [] w).1 in
      let (w2, e, q) = tell_deal-Tells uid arr reason req_by w1 in
      (w2, arr, e, Dealt-Quiet (deal_cards-Dealt laws n uid [] w m p) q)

-- The room after a turn was passed on.
abbrev passed : Room → Room
passed r =
    let r' = game_cursor_move r none r.direction in
    record r' {
      game_state = GameState.wait_player;
      timer = pos timer_player_thinking;
      last_can_report = none;
      can_play_ahead = false;
    }

passed-IsTable : {r : Room} → IsTable r → IsTable (passed r)
unfolding total game_cursor_move
passed-IsTable {r} t =
    let (j, e, h) =
      game_cursor_move_in_range r none r.direction t.spot t.seated t.at_spot t.in_seat in
    record {
      seated = t.seated;
      spot = j;
      at_spot = e;
      in_seat = h;
      members = t.members;
      cards_only = t.cards_only;
      last_color = t.last_color;
      penalty = t.penalty;
      reportable = λ u p. absurd (cc);
      counted = t.counted;
    }

pass_turn_lem :
    (w : World) → IsTable w.room → (w' : World) × (pass_turn w ≡ ok w') × (w'.room ≡ passed w.room)
unfolding pass_turn game_cursor_move
pass_turn_lem w t =
    let (u, e, m) = seat_some (passed-IsTable t) in
    let (w', told, q) = broadcast_thinking-Tells (record w { room = passed w.room }) u e in
    (w', told, q.same_room)

pub not_normal : (reason : DealReason) → reason ≢ DealReason.normal → is_normal reason ≡ false
unfolding is_normal
not_normal DealReason.normal h = absurd (h refl)
not_normal DealReason.draw h = refl
not_normal DealReason.bad_uno h = refl
not_normal DealReason.report h = refl
not_normal DealReason.last_card h = refl

-- How many cards a player in turn asks for.
abbrev pub asked : Room → ℕ
asked r = if not (r.draw == 0) then r.draw else 1

no_penalty-IsTable : {r : Room} → IsTable r → IsTable (record r { draw = 0 })
unfolding total
no_penalty-IsTable t = record {
  seated = t.seated;
  spot = t.spot;
  at_spot = t.at_spot;
  in_seat = t.in_seat;
  members = t.members;
  cards_only = t.cards_only;
  last_color = t.last_color;
  penalty = λ p. absurd (omega arith);
  reportable = t.reportable;
  counted = t.counted;
}

pub no_report-IsTable : {r : Room} → IsTable r → IsTable (record r { last_can_report = none })
unfolding total
no_report-IsTable t = record {
  seated = t.seated;
  spot = t.spot;
  at_spot = t.at_spot;
  in_seat = t.in_seat;
  members = t.members;
  cards_only = t.cards_only;
  last_color = t.last_color;
  penalty = t.penalty;
  reportable = λ u p. absurd (cc);
  counted = t.counted;
}

pub Dealt-IsTable :
    {w : World} {n uid : ℕ} {arr out : List ℤ} {w' : World}
    → IsTable w.room
    → Dealt w n uid arr out w'
    → IsTable w'.room
Dealt-IsTable t d = IsTable-Framed t d.frame d.same_keys d.conserved

-- The state in which a player in turn leaves the game after a deal.
pub record DealtInTurn (w : World) (uid : ℕ) (w' : World) : Type 0 where
  pub table : IsTable w'.room
  pub new : List ℤ
  pub hand : hand_of uid w'.room.players ≡ hand_of uid w.room.players ++ new
  pub size : length new ≡ min (asked w.room) (stock w.room)
  pub conserved : (x : ℤ) → total x w'.room ≡ total x w.room
  pub paid : w'.room.draw ≡ 0
  pub waits : w'.room.game_state ≡ GameState.wait_player
  pub next : w'.room.cursor ≡ (game_cursor_move w.room none w.room.direction).cursor
  pub no_report : w'.room.last_can_report ≡ none
  pub no_ahead : w'.room.can_play_ahead ≡ false

module _ {R : Random} (laws : IsRandom R) where
  deal_normal_lem :
      (w : World) (uid : ℕ) (req_by : Option ℕ)
      → IsTable w.room
      → IsMember uid w.room.players
      → (w' : World) × (deal_normal R w uid req_by ≡ ok w') × DealtInTurn w uid w'
  unfolding deal_normal total game_cursor_move
  deal_normal_lem w uid req_by t m =
      let r = w.room in
      let w0 : World = record w { room = record r { draw = 0 } } in
      let t0 : IsTable w0.room = no_penalty-IsTable t in
      let why = if not (r.draw == 0) then DealReason.draw else DealReason.normal in
      let (w1, out, e1, d) = deal_out_lem laws w0 uid (asked r) why req_by m (table-Positive t0) in
      let t1 = Dealt-IsTable t0 d in
      let (w2, e2, same) = pass_turn_lem w1 t1 in
      (
        w2,
        rw e1 e2,
        record {
          table = subst IsTable (sym same) (passed-IsTable t1);
          new = d.new;
          hand = ap (λ (z : Room). hand_of uid z.players) same ∙ d.hand;
          size = d.size;
          conserved = λ x. ap (total x) same ∙ d.conserved x;
          paid = ap (λ (z : Room). z.draw) same ∙ ap (λ (z : Room). z.draw) d.frame;
          waits = ap (λ (z : Room). z.game_state) same;
          next =
              ap (λ (z : Room). z.cursor) same
              ∙ ap (λ (z : Room). (game_cursor_move z none z.direction).cursor) d.frame;
          no_report = ap (λ (z : Room). z.last_can_report) same;
          no_ahead = ap (λ (z : Room). z.can_play_ahead) same;
        },
      )

  -- At a table the player in turn can always ask for cards: the call returns true, deals the pending
  -- penalty or one card, or all that is left, loses no card, and passes the turn on.
  pub game_player_deal_card_in_turn :
      (w : World) (uid n : ℕ) (req_by : Option ℕ)
      → IsTable w.room
      → seat w.room ≡ ok uid
      → (w' : World) × (game_player_deal_card R w uid n DealReason.normal req_by ≡ ok (true, w'))
        × DealtInTurn w uid w'
  unfolding game_player_deal_card with_result is_normal
  game_player_deal_card_in_turn w uid n req_by t s =
      let (u, e, mu) = seat_some t in
      let same : u ≡ uid = cc in
      let m : IsMember uid w.room.players = rw same at mu in
      let (p, found) = member_some uid w.room.players m in
      let (w', done, d) = deal_normal_lem w uid req_by t m in
      (w', rw (s, found, ==_self uid, done), d)

  -- A punishment of `n` cards for a member.
  pub deal_punishment_lem :
      (w : World) (uid n : ℕ) (reason : DealReason) (req_by : Option ℕ)
      → reason ≢ DealReason.normal
      → IsTable w.room
      → IsMember uid w.room.players
      → 0 < n
      → (w' : World) × (out : List ℤ) × (game_player_deal_card R w uid n reason req_by
          ≡ ok (true, w'))
        × Dealt w n uid [] out w'
  unfolding game_player_deal_card with_result deal_punishment
  deal_punishment_lem w uid n reason req_by q t m h =
      let (u, s, mu) = seat_some t in
      let (p, found) = member_some uid w.room.players m in
      let (w', out, done, d) = deal_out_lem laws w uid n reason req_by m (table-Positive t) in
      (w', out, rw (s, found, not_normal reason q, lt→ltb 0 n h, done), d)

-- Out of turn the same call returns false and changes nothing.
pub game_player_deal_card_out_of_turn :
    (R : Random) (w : World) (uid cur n : ℕ) (req_by : Option ℕ)
    → seat w.room ≡ ok cur
    → cur ≢ uid
    → IsMember uid w.room.players
    → game_player_deal_card R w uid n DealReason.normal req_by ≡ ok (false, w)
unfolding game_player_deal_card is_normal
game_player_deal_card_out_of_turn R w uid cur n req_by s ne m =
    let (p, found) = member_some uid w.room.players m in rw (s, found, ==_ne cur uid ne) refl
