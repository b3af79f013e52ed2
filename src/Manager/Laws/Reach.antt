-- ===== src/Manager/Laws/Reach.antt =====
-- The states that the requests of src/game/room.cpp lead to.
use Prim.Native.String.{String}
use uno_server.Common.{
  ℕ, ◌<◌, ◌≡◌, refl, sym, Bool, false, arith, Option, none, some, ℤ, pos, negsuc, length, lookup,
  Outcome, ok, Option-cases, inl, inr,
}
use mathlib.Core.Path.{subst}
use uno_server.Session.Ssmgr.{find_session}
use uno_server.Room.Types.{Room, Player}
use uno_server.Room.Random.{Random}
use uno_server.Room.Notify.{Event}
use uno_server.Room.Laws.Kept.{Ends, returns, stops}
use uno_server.Manager.Types.{Server}
use uno_server.Manager.Create.{Bytes, create_room_req}
use uno_server.Manager.Enter.{enter_room_req}
use uno_server.Manager.Seats.{get_ready_req, shuffle_room_seats_req, room_use_voice_req}
use uno_server.Manager.Game.{
  get_room_list_req, start_game_req, game_play_card_req, game_deal_card_req, game_report_no_uno_req,
}
use uno_server.Manager.Presence.{tell_presence, presence_in, change_presence, login, logout}
use uno_server.Manager.Laws.Invariant.{IsServer, Returns, answer-IsServer}
use uno_server.Manager.Laws.Rooms.{KeepsSeats}
use uno_server.Manager.Laws.Waiting.{told-IsServer, room_requests-Returns}
use uno_server.Manager.Leave.{leave_room_req}
use uno_server.Manager.Kick.{room_kickout_player_req}
use uno_server.Manager.Laws.Going.{leave_room_req-Ends, room_kickout_player_req-Ends}
use uno_server.Manager.Laws.Playing.{game_requests-Ends}
use uno_server.Manager.Laws.Arriving.{enter_room_req-Returns, create_room_req-Returns}

presence_in-IsServer :
    {s : Server} (event : Event) (f : Player → Player) (uid id : ℕ) (o : Option Room)
    → IsServer s
    → lookup id s.m_rooms ≡ o
    → IsServer (presence_in event f uid id o s)
unfolding presence_in tell_presence
presence_in-IsServer {s} event f uid id none i there = i
presence_in-IsServer {s} event f uid id (some r) i there =
    elim (Option-cases (lookup uid r.players)) [
      | inl e ↦ rw (presence_in, e) i
      | inr (p, e) ↦ rw (presence_in, e) (told-IsServer id uid r p (f p) (some uid) event i there e)
    ]

change_presence-IsServer :
    {s : Server} (event : Event) (f : Player → Player) (uid : ℕ) (room_id : ℤ)
    → IsServer s
    → IsServer (change_presence event f uid room_id s)
unfolding change_presence
change_presence-IsServer {s} event f uid (pos id) i =
    presence_in-IsServer event f uid id (lookup id s.m_rooms) i refl
change_presence-IsServer {s} event f uid (negsuc k) i = i

-- What an attached session may do, and the listeners of the two events.
pub data Request (R : Random) (size : Bytes) (s s' : Server) : Type 0 where
  creates :
      (sid uid : ℕ) (title : String) (n : ℤ)
      → find_session uid s.ssmgr ≡ some sid
      → length s.m_rooms < 2147483647
      → create_room_req size s sid uid title n ≡ ok s'
      → Request R size s s'
  enters :
      (sid uid : ℕ) (room_id : ℤ) (re_enter : Bool)
      → find_session uid s.ssmgr ≡ some sid
      → enter_room_req s sid uid room_id re_enter ≡ ok s'
      → Request R size s s'
  readies :
      (sid uid : ℕ) (room_id : ℤ)
      → find_session uid s.ssmgr ≡ some sid
      → get_ready_req s sid uid room_id ≡ ok s'
      → Request R size s s'
  shuffles :
      (sid uid : ℕ) (room_id now : ℤ)
      → find_session uid s.ssmgr ≡ some sid
      → shuffle_room_seats_req R now s sid uid room_id ≡ ok s'
      → Request R size s s'
  speaks :
      (sid uid : ℕ) (room_id now voice_id : ℤ)
      → find_session uid s.ssmgr ≡ some sid
      → room_use_voice_req now s sid uid room_id voice_id ≡ ok s'
      → Request R size s s'
  starts :
      (sid uid : ℕ) (room_id : ℤ)
      → find_session uid s.ssmgr ≡ some sid
      → start_game_req R s sid uid room_id ≡ ok s'
      → Request R size s s'
  plays :
      (sid uid : ℕ) (room_id c chg_color : ℤ) (with_uno : Bool)
      → find_session uid s.ssmgr ≡ some sid
      → game_play_card_req R s sid uid room_id c with_uno chg_color ≡ ok s'
      → Request R size s s'
  draws :
      (sid uid : ℕ) (room_id : ℤ)
      → find_session uid s.ssmgr ≡ some sid
      → game_deal_card_req R s sid uid room_id ≡ ok s'
      → Request R size s s'
  reports :
      (sid uid : ℕ) (room_id : ℤ)
      → find_session uid s.ssmgr ≡ some sid
      → game_report_no_uno_req R s sid uid room_id ≡ ok s'
      → Request R size s s'
  leaves :
      (sid uid : ℕ) (room_id : ℤ)
      → find_session uid s.ssmgr ≡ some sid
      → leave_room_req R s sid uid room_id ≡ ok s'
      → Request R size s s'
  kicks :
      (sid uid : ℕ) (room_id : ℤ) (be_kicked : ℕ)
      → find_session uid s.ssmgr ≡ some sid
      → room_kickout_player_req R s sid uid room_id be_kicked ≡ ok s'
      → Request R size s s'
  lists : (sid : ℕ) → s' ≡ get_room_list_req s sid → Request R size s s'
  comes : (sid uid : ℕ) → s' ≡ login sid uid s → Request R size s s'
  goes : (sid uid : ℕ) (now : ℤ) → s' ≡ logout now sid uid s → Request R size s s'

pub data Reach (R : Random) (size : Bytes) (s : Server) : Server → Type 0 where
  here : Reach R size s s
  after : {s1 s2 : Server} → Reach R size s s1 → Request R size s1 s2 → Reach R size s s2

Ended : {m : Outcome Server} {s' : Server} → Ends IsServer m → m ≡ ok s' → IsServer s'
Ended (returns s1 i) e = let same : s1 ≡ _ = cc in subst IsServer same i
Ended (stops err) e = absurd (ground arith)

Returned : {m : Outcome Server} {s' : Server} → Returns IsServer m → m ≡ ok s' → IsServer s'
Returned {m} {s'} (s1, e, i) e' = let same : s1 ≡ s' = cc in subst IsServer same i

module _ {R : Random} {size : Bytes} (keeps : KeepsSeats R) where
  Request-IsServer : {s s' : Server} → Request R size s s' → IsServer s → IsServer s'
  unfolding get_room_list_req login logout
  Request-IsServer (creates sid uid title n f few e) i =
      Returned (create_room_req-Returns size sid uid title n i f few) e
  Request-IsServer (enters sid uid room_id re_enter f e) i =
      Returned (enter_room_req-Returns sid uid room_id re_enter i f) e
  Request-IsServer (readies sid uid room_id f e) i =
      Returned (room_requests-Returns sid uid room_id (pos 0) (pos 0) keeps i f).0 e
  Request-IsServer (shuffles sid uid room_id now f e) i =
      Returned (room_requests-Returns sid uid room_id now (pos 0) keeps i f).1 e
  Request-IsServer (speaks sid uid room_id now voice_id f e) i =
      Returned (room_requests-Returns sid uid room_id now voice_id keeps i f).2 e
  Request-IsServer (starts sid uid room_id f e) i =
      Ended (game_requests-Ends R sid uid room_id (pos 0) (pos 0) false i).0 e
  Request-IsServer (plays sid uid room_id c chg_color with_uno f e) i =
      Ended (game_requests-Ends R sid uid room_id c chg_color with_uno i).1 e
  Request-IsServer (draws sid uid room_id f e) i =
      Ended (game_requests-Ends R sid uid room_id (pos 0) (pos 0) false i).2 e
  Request-IsServer (reports sid uid room_id f e) i =
      Ended (game_requests-Ends R sid uid room_id (pos 0) (pos 0) false i).3 e
  Request-IsServer (leaves sid uid room_id f e) i =
      Ended (leave_room_req-Ends R sid uid room_id i f) e
  Request-IsServer (kicks sid uid room_id be_kicked f e) i =
      Ended (room_kickout_player_req-Ends R sid uid room_id be_kicked i) e
  Request-IsServer (lists sid e) i = subst IsServer (sym e) (answer-IsServer sid _ i)
  Request-IsServer {s} (comes sid uid e) i =
      subst IsServer (sym e) (change_presence-IsServer _ _ uid (s.ssmgr.store sid).room_id i)
  Request-IsServer {s} (goes sid uid now e) i =
      subst IsServer (sym e) (change_presence-IsServer _ _ uid (s.ssmgr.store sid).room_id i)

  -- From a proper server, whatever requests attached sessions send that return, and whichever of
  -- the two listeners runs, in whatever order, the server stays proper: in each room every player
  -- has one seat and nobody else has any, there are as many players as it counts, and no more than
  -- it takes, or one; and a session that plays names a room with its player in it, or none. The
  -- requests are all those of the room manager: to create a room, with fewer of them than there are
  -- ids, to enter one, to leave it, to kick a player, to get ready, to shuffle the seats, to use a
  -- voice, to start a game, to play a card, to draw one, to report a player and to list the rooms;
  -- the shuffle keeps the seats.
  pub Reach-IsServer : {s s' : Server} → IsServer s → Reach R size s s' → IsServer s'
  Reach-IsServer i here = i
  Reach-IsServer i (after run request) = Request-IsServer request (Reach-IsServer i run)
