-- ===== src/Room/Laws/Report.antt =====
-- `game_player_report_no_uno` of src/game/room.cpp.
use Prim.Native.Nat.{min}
use uno_server.Common.{
  ℕ, ◌≡◌, refl, ap, true, false, none, some, List, ◌++◌, arith, ℤ, length, ok, Option-cases, ◌⊎◌,
  inl, inr,
}
use uno_server.Stater.Types.{DealReason}
use uno_server.Room.Types.{Room, punish_for_no_uno}
use uno_server.Room.Random.{Random, IsRandom}
use uno_server.Room.Notify.{World}
use uno_server.Room.Deal.{hand_of, game_player_report_no_uno, punish_no_uno}
use uno_server.Room.Laws.Piles.{total, IsMember, member_some}
use uno_server.Room.Laws.Draw.{stock}
use uno_server.Room.Laws.Table.{IsTable}
use uno_server.Room.Laws.Dealing.{deal_punishment_lem, no_report-IsTable, Dealt-IsTable}

-- What a report that succeeds leaves behind for the reported player.
pub record Reported (w : World) (v : ℕ) (w' : World) : Type 0 where
  pub table : IsTable w'.room
  pub new : List ℤ
  pub hand : hand_of v w'.room.players ≡ hand_of v w.room.players ++ new
  pub size : length new ≡ min punish_for_no_uno (stock w.room)
  pub conserved : (x : ℤ) → total x w'.room ≡ total x w.room
  pub cleared : w'.room.last_can_report ≡ none
  pub same_turn : w'.room.cursor ≡ w.room.cursor

module _ {R : Random} (laws : IsRandom R) where
  reported :
      (w : World) (uid v : ℕ)
      → IsTable w.room
      → IsMember uid w.room.players
      → w.room.last_can_report ≡ some v
      → (w' : World) × (game_player_report_no_uno R w uid ≡ ok (true, w')) × Reported w v w'
  unfolding game_player_report_no_uno punish_no_uno total
  reported w uid v t m e =
      let (p, found) = member_some uid w.room.players m in
      let mv = t.reportable v e in
      let w0 : World = record w { room = record w.room { last_can_report = none } } in
      let (w', out, done, d) =
        deal_punishment_lem laws w0 v punish_for_no_uno DealReason.report (some uid)
          (λ q. absurd (cc)) (no_report-IsTable t) mv (omega arith) in
      (
        w',
        rw (found, e, mv, done) refl,
        record {
          table = Dealt-IsTable (no_report-IsTable t) d;
          new = d.new;
          hand = d.hand;
          size = d.size;
          conserved = d.conserved;
          cleared = ap (λ (z : Room). z.last_can_report) d.frame;
          same_turn = ap (λ (z : Room). z.cursor) d.frame;
        },
      )

  not_reported :
      (w : World) (uid : ℕ)
      → IsMember uid w.room.players
      → w.room.last_can_report ≡ none
      → game_player_report_no_uno R w uid ≡ ok (false, w)
  unfolding game_player_report_no_uno punish_no_uno
  not_reported w uid m e = let (p, found) = member_some uid w.room.players m in rw (found, e) refl

  -- At a table a report by a member returns. Without a player who may be reported it returns false
  -- and changes nothing. Otherwise it returns true, that player draws two cards, or all that is
  -- left, no card is lost, nobody may be reported any more and the turn stays.
  pub game_player_report_no_uno_lem :
      (w : World) (uid : ℕ)
      → IsTable w.room
      → IsMember uid w.room.players
      → ((w.room.last_can_report ≡ none) × (game_player_report_no_uno R w uid ≡ ok (false, w)))
        ⊎ ((v : ℕ) × (w.room.last_can_report ≡ some v)
            × ((w' : World) × (game_player_report_no_uno R w uid ≡ ok (true, w'))
                × Reported w v w'))
  game_player_report_no_uno_lem w uid t m = elim (Option-cases w.room.last_can_report) [
    | inl e ↦ inl (e, not_reported w uid m e)
    | inr (v, e) ↦ inr (v, e, reported w uid v t m e)
  ]
