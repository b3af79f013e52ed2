-- ===== src/Manager/Laws/Starts.antt =====
-- `start_game_req` of src/game/room.cpp.
use uno_server.Common.{
  ℕ, ◌≤◌, ◌≡◌, ◌⊎◌, refl, sym, ◌∙◌, true, false, none, some, arith, ◌==◌, ==_self, ltb, pos, negsuc,
  length, lookup, ok,
}
use mathlib.Core.Path.{subst}
use uno_server.Stater.Types.{GameStater}
use uno_server.Stater.Events.{StatCall}
use uno_server.Stater.Handlers.{on_game_start}
use uno_server.Stater.Dispatch.{call_stat_event}
use uno_server.Room.Types.{Room, Player, State, cards_of, get_snapshot, view}
use uno_server.Room.Random.{Random, IsRandom}
use uno_server.Room.Notify.{World, Event, broadcast_event, stat_event}
use uno_server.Room.Laws.Piles.{total}
use uno_server.Room.Laws.Quiet.{broadcast_event-Quiet}
use uno_server.Room.Laws.Starting.{Started, Seated, game_start_lem}
use uno_server.Manager.Answers.{ErrCode, start_game_rsp}
use uno_server.Manager.Types.{Server, answer, world_of, put_back, run_room}
use uno_server.Manager.Guard.{idle_only}
use uno_server.Manager.Game.{all_ready, announce_start, begin_game, start_game, start_game_req}
use uno_server.Manager.Laws.Guards.{Admitted, room_request-Admitted}
use uno_server.Manager.Laws.Invariant.{IsRoom}
use uno_server.Manager.Laws.Games.{lookup-put_back}

-- The statistics begin anew.
stat_event-game_start :
    (w : World)
    → stat_event false StatCall.game_start w
      ≡ ok (let r = w.room in record w { room = record r { stater = on_game_start (view r).uids } })
unfolding stat_event call_stat_event
stat_event-game_start w = refl

Started-stater :
    {r r' : Room} (g : GameStater) → Started r r' → Started r (record r' { stater = g })
unfolding total
Started-stater {r} {r'} g i = record {
  playing = i.playing;
  dealing = i.dealing;
  first_round = i.first_round;
  turned = i.turned;
  spot = i.spot;
  at_spot = i.at_spot;
  in_seat = i.in_seat;
  dealer = i.dealer;
  is_dealer = i.is_dealer;
  seat_of_dealer = i.seat_of_dealer;
  same_seats = i.same_seats;
  size = i.size;
  three_sets = i.three_sets;
  all_cards = i.all_cards;
}

told-Started :
    {r : Room} (event : Event) (w : World)
    → Started r w.room
    → (w' : World) × (stat_event false StatCall.game_start (broadcast_event none event w) ≡ ok w')
      × Started r w'.room
told-Started {r} event w i =
    let w1 = broadcast_event none event w in
    let same = (broadcast_event-Quiet none event w).same_room in
    (_, stat_event-game_start w1, Started-stater _ (subst (Started r) (sym same) i))

announce_start-Started :
    {r : Room} (w : World)
    → Started r w.room
    → (w' : World) × (announce_start w ≡ ok w') × Started r w'.room
unfolding announce_start get_snapshot cards_of
announce_start-Started {r} w i = told-Started _ w i

module _ {R : Random} (laws : IsRandom R) where
  -- In a room of at least two and at most 49 players that is proper, where a game may start by the
  -- direction and the winner of the last one, the owner's request to start a game returns when all
  -- the others are ready. The room under the key is then in the state in which a game starts: it
  -- deals, from three full sets of cards, and the dealer is in turn.
  pub start_game_req_lem :
      (s : Server) (sid uid id : ℕ) (r : Room) (p : Player)
      → Admitted idle_only s sid id r
      → lookup uid r.players ≡ some p
      → IsRoom id r
      → r.state ≡ State.idle
      → r.owner ≡ uid
      → 2 ≤ r.curr_players
      → r.curr_players ≤ 49
      → all_ready uid r.players ≡ true
      → (r.last_direction ≡ pos 1) ⊎ (r.last_direction ≡ negsuc 0)
      → (r.last_win ≡ none) ⊎ ((u : ℕ) × (r.last_win ≡ some u) × Seated r.seq u)
      → (s' : Server) × (r' : Room) × (start_game_req R s sid uid (pos id) ≡ ok s')
        × (lookup id s'.m_rooms ≡ some r')
        × Started r r'
  unfolding start_game_req start_game begin_game run_room world_of
  start_game_req_lem s sid uid id r p a found room idle own some_players few ready direction
        winner =
      let (w, started, i) =
        game_start_lem laws (world_of s r) idle some_players few room.counted direction winner in
      let s1 = answer sid (start_game_rsp ErrCode.ok) (put_back id w s) in
      let (w2, announced, i2) = announce_start-Started (world_of s1 w.room) i in
      let its : (r.owner == uid) ≡ true = rw own (==_self uid) in
      let two : ltb (length r.players) 2 ≡ false =
        let n = room.counted in let m = room.entries in ground arith in
      (
        put_back id w2 s1,
        w2.room,
        room_request-Admitted start_game_rsp idle_only (start_game R sid uid) s sid uid id r p a
              found
            ∙ rw its (rw two (rw ready (rw started (rw announced refl)))),
        lookup-put_back id w2 s1,
        i2,
      )
