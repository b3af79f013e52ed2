-- ===== src/Manager/Laws/Playing.antt =====
-- The requests of a game in src/game/room.cpp: whenever they return, the server is proper.
use uno_server.Common.{
  All-map, ℕ, ◌≡◌, inl, inr, refl, sym, ap, ◌∙◌, Bool, false, not, none, some, [], ◌∷◌, arith, ◌==◌,
  ltb, ℤ, length, All, lookup, keys, Outcome, ok, assert_some,
}
use mathlib.Core.Path.{subst}
use uno_server.Stater.Types.{DealReason}
use uno_server.Stater.Events.{StatCall}
use uno_server.Room.Types.{Room, Player, PlayerMap, get_snapshot}
use uno_server.Room.Random.{Random}
use uno_server.Room.Notify.{World, Event, broadcast_event}
use uno_server.Room.Start.{game_start}
use uno_server.Room.Laws.Piles.{IsMember, IsMember-of_keys}
use uno_server.Room.Laws.Quiet.{broadcast_event-Quiet}
use uno_server.Room.Laws.Kept.{
  Kept, Keeps, KeepsToo, Ends, returns, Ends-bind, Ends-any, Ends-if, Ends-from, Keeps-Quiet,
}
use uno_server.Room.Laws.Kept.Deals.{game_player_deal_card-Keeps, game_player_report_no_uno-Keeps}
use uno_server.Room.Laws.Kept.Games.{
  stat_event-Keeps, game_player_card_play-Keeps, game_start-Keeps,
}
use uno_server.Manager.Answers.{
  ErrCode, Reply, start_game_rsp, game_play_card_rsp, game_deal_card_rsp, game_report_no_uno_rsp,
}
use uno_server.Manager.Types.{Server, answer, world_of, put_back, run_room}
use uno_server.Manager.Guard.{Action, idle_only, playing_only, room_request, act_on}
use uno_server.Manager.Game.{
  all_ready, announce_start, begin_game, start_game, start_game_req, game_call, game_play_card_req,
  game_deal_card_req, game_report_no_uno_req,
}
use uno_server.Manager.Laws.Guards.{in_room-Admitted, in_room-cases}
use uno_server.Manager.Laws.Invariant.{IsRoom, IsServer, answer-IsServer, put_back-IsServer}
use uno_server.Manager.Laws.Times.{times}
use uno_server.Manager.Laws.Games.{lookup-put_back}

pub length-keys : (m n : PlayerMap) → keys m ≡ keys n → length m ≡ length n
length-keys [] [] e = refl
length-keys [] ((j, p) ∷ n) e = absurd (ground arith)
length-keys ((j, p) ∷ m) [] e = absurd (ground arith)
length-keys ((j, p) ∷ m) ((i, q) ∷ n) e = ground (arith, length-keys m n)

pub Kept-IsRoom : {id : ℕ} {r r' : Room} → Kept r r' → IsRoom id r → IsRoom id r'
Kept-IsRoom {id} {r} {r'} k i = record {
  same_id = k.same_id ∙ i.same_id;
  counted = k.same_count ∙ i.counted ∙ ap length (sym k.same_seats);
  entries = length-keys r'.players r.players k.same_keys ∙ i.entries ∙ ap length (sym k.same_seats);
  seats =
      subst (All (λ u. IsMember u r'.players)) (sym k.same_seats)
        (All-map r.seq (λ u. IsMember-of_keys u r.players r'.players (sym k.same_keys)) i.seats);
  once = λ u. ap (times u) k.same_keys ∙ i.once u ∙ ap (times u) (sym k.same_seats);
  single = λ u. rw (k.same_seats) (i.single u);
  fits = rw (k.same_count, k.same_max) i.fits;
}

-- A room's code that keeps the room's shape.
pub Keeps-IsServer :
    {s : Server} (id : ℕ) (r : Room) (w : World)
    → IsServer s
    → lookup id s.m_rooms ≡ some r
    → Keeps r w
    → IsServer (put_back id w s)
Keeps-IsServer id r w i there k =
    put_back-IsServer id r w.room w i there refl (Kept-IsRoom k (i.rooms id r there))
      (λ u. IsMember-of_keys u r.players w.room.players (sym k.same_keys))

pub room_request-Ends :
    {s : Server} (rsp : ErrCode → Reply) (allowed : Room → Bool) (act : Action) (sid uid : ℕ)
    (room_id : ℤ)
    → IsServer s
    → ((id : ℕ) (r : Room) (p : Player)
        → lookup id s.m_rooms ≡ some r
        → Ends IsServer (act id r p s))
    → Ends IsServer (room_request rsp allowed act s sid uid room_id)
unfolding room_request act_on
room_request-Ends {s} rsp allowed act sid uid room_id i go =
    elim (in_room-cases allowed s sid room_id) [
      | inl e ↦ rw e (returns _ (answer-IsServer sid (rsp ErrCode.api_invalid_call) i))
      | inr (id, r, at, a) ↦
          rw (at, in_room-Admitted allowed s sid id r a)
            (Ends-any (assert_some (lookup uid r.players)) _ (λ p. go id r p a.found))
    ]

game_call-Ends :
    {s : Server} (rsp : ErrCode → Reply) (refused : ErrCode) (call : World → Outcome (Bool × World))
    (sid id : ℕ) (r : Room) (p : Player)
    → IsServer s
    → lookup id s.m_rooms ≡ some r
    → Ends (KeepsToo r) (call (world_of s r))
    → Ends IsServer (game_call rsp refused call sid id r p s)
unfolding game_call
game_call-Ends {s} rsp refused call sid id r p i there e =
    Ends-bind (call (world_of s r)) _ e
      (λ res k. returns _ (answer-IsServer sid _ (Keeps-IsServer id r res.1 i there k)))

announce_start-Keeps : (w : World) → Ends (Keeps w.room) (announce_start w)
unfolding announce_start
announce_start-Keeps w = Ends-any (get_snapshot w.room none) _ (λ snapshot.
    let event = Event.game_start snapshot in
    let w1 = broadcast_event none event w in
    Ends-from (Keeps-Quiet (broadcast_event-Quiet none event w))
      (stat_event-Keeps false StatCall.game_start w1))

begin_game-Ends :
    {s : Server} (R : Random) (sid id : ℕ) (r : Room)
    → IsServer s
    → lookup id s.m_rooms ≡ some r
    → Ends IsServer (begin_game R sid id r s)
unfolding begin_game run_room world_of answer
begin_game-Ends {s} R sid id r i there =
    Ends-bind (game_start R (world_of s r)) _ (game_start-Keeps R (world_of s r)) (λ w k.
      let s1 = answer sid (start_game_rsp ErrCode.ok) (put_back id w s) in
      let i1 = answer-IsServer sid (start_game_rsp ErrCode.ok) (Keeps-IsServer id r w i there k) in
      Ends-bind (announce_start (world_of s1 w.room)) _ (announce_start-Keeps (world_of s1 w.room))
        (λ w2 k2. returns _ (Keeps-IsServer {s = s1} id w.room w2 i1 (lookup-put_back id w s) k2)))

start_game-Ends :
    {s : Server} (R : Random) (sid uid id : ℕ) (r : Room) (p : Player)
    → IsServer s
    → lookup id s.m_rooms ≡ some r
    → Ends IsServer (start_game R sid uid id r p s)
unfolding start_game
start_game-Ends {s} R sid uid id r p i there =
    let refusal : (err : ErrCode) → Ends IsServer (ok (answer sid (start_game_rsp err) s)) =
      λ err. returns _ (answer-IsServer sid (start_game_rsp err) i) in
    Ends-if (not (r.owner == uid)) _ _ (refusal ErrCode.api_room_not_owner) (
      Ends-if (ltb (length r.players) 2) _ _ (refusal ErrCode.api_invalid_call) (
        Ends-if (not (all_ready uid r.players)) _ _ (refusal ErrCode.api_room_not_ready)
          (begin_game-Ends R sid id r i there)))

-- The four requests of a game.
pub game_requests-Ends :
    {s : Server} (R : Random) (sid uid : ℕ) (room_id c chg_color : ℤ) (with_uno : Bool)
    → IsServer s
    → Ends IsServer (start_game_req R s sid uid room_id)
      × Ends IsServer (game_play_card_req R s sid uid room_id c with_uno chg_color)
      × Ends IsServer (game_deal_card_req R s sid uid room_id)
      × Ends IsServer (game_report_no_uno_req R s sid uid room_id)
unfolding start_game_req game_play_card_req game_deal_card_req game_report_no_uno_req world_of
game_requests-Ends {s} R sid uid room_id c chg_color with_uno i = (
  room_request-Ends start_game_rsp idle_only (start_game R sid uid) sid uid room_id i
      (λ id r p there. start_game-Ends R sid uid id r p i there),
  room_request-Ends game_play_card_rsp playing_only _ sid uid room_id i (λ id r p there.
      game_call-Ends game_play_card_rsp ErrCode.api_game_cannot_play_card _ sid id r p i there
        (game_player_card_play-Keeps R (world_of s r) uid c with_uno chg_color)),
  room_request-Ends game_deal_card_rsp playing_only _ sid uid room_id i (λ id r p there.
      game_call-Ends game_deal_card_rsp ErrCode.api_game_cannot_deal_card _ sid id r p i there
        (game_player_deal_card-Keeps R (world_of s r) uid 1 DealReason.normal none)),
  room_request-Ends game_report_no_uno_rsp playing_only _ sid uid room_id i (λ id r p there.
      game_call-Ends game_report_no_uno_rsp ErrCode.api_game_cannot_report_no_uno _ sid id r p i
        there (game_player_report_no_uno-Keeps R (world_of s r) uid)),
)
