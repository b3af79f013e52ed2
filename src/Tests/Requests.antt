-- ===== src/Tests/Requests.antt =====
-- A server with two sessions, and the theorems on the room manager at it.

use uno_server.Common.{
  ◌++◌, ◌==ℤ◌, ℕ, ◌≡◌, ◌≢◌, ◌⊎◌, inl, inr, refl, true, false, none, some, [], ◌∷◌, arith, ◌==◌,
  if◌then◌else◌, pos, negsuc, lookup, ok, Bool-cases, ==_iff,
}
use mathlib.Core.Path.{subst}
use uno_server.Session.Types.{Session, SessionState, new_session, time_min, is_gaming}
use uno_server.Session.Ssmgr.{Ssmgr, find_session, on_disconnect}
use uno_server.Room.Types.{Room, State, GameState}
use uno_server.Room.Cursor.{seat}
use uno_server.Room.Laws.Starting.{Started}
use uno_server.Room.Laws.Dealing.{DealtInTurn}
use uno_server.Room.Leave.{is_playing, game_player_leave, leave_seat, return_hand, close_seat}
use uno_server.Manager.Answers.{
  reply_to, enter_room_rsp, ErrCode, get_ready_rsp, shuffle_room_seats_rsp, room_kickout_player_rsp,
  start_game_rsp, game_play_card_rsp, game_deal_card_rsp, game_report_no_uno_rsp,
}
use uno_server.Room.Notify.{World}
use uno_server.Manager.Types.{Server, answer, world_of, find_room, run_room}
use uno_server.Manager.Guard.{idle_only, playing_only, any_state, in_room, plays_in}
use uno_server.Manager.Create.{Bytes, create_room_req, new_room_id}
use uno_server.Manager.Enter.{enter_room_req}
use uno_server.Manager.Seats.{get_ready_req, shuffle_room_seats_req}
use uno_server.Manager.Kick.{room_kickout_player_req}
use uno_server.Manager.Game.{
  get_room_list_req, all_ready, start_game_req, game_play_card_req, game_deal_card_req,
  game_report_no_uno_req,
}
use uno_server.Manager.Events.{registered, emit_login, emit_logout, disconnect}
use uno_server.Manager.Leave.{leave_room_req, is_dealing}
use uno_server.Manager.Laws.Ids.{FreshId, new_room_id-FreshId}
use uno_server.Manager.Laws.Guards.{Admitted, idle_requests-Barred, game_requests-Barred}
use uno_server.Manager.Laws.Invariant.{IsRoom, IsServer, Returns}
use uno_server.Manager.Laws.Rooms.{KeepsSeats}
use uno_server.Manager.Laws.Arriving.{create_room_req-Returns, enter_room_req-Returns}
use uno_server.Manager.Laws.Reach.{leaves, lists, here, after, Reach-IsServer}
use uno_server.Manager.Laws.Games.{
  answered, PlayAnswered, game_play_card_req_lem, game_deal_card_req_lem,
}
use uno_server.Manager.Laws.Starts.{start_game_req_lem}
use uno_server.Manager.Laws.Defects.{
  shuffle_room_seats_req-never, events_unheard, enter_room_req-loses,
}
use uno_server.Tests.{plain, plain-IsRandom, room, player, room-IsTable, red_5}

plain-KeepsSeats : KeepsSeats plain
plain-KeepsSeats = record { seats_length = λ gen seq. refl; seats_times = λ gen seq u. refl }

-- User 7 plays in room 1 over session 1, user 9 is in the lobby over session 2.
abbrev in_game : Session
in_game = record new_session { uid = some 7; state = SessionState.gaming; room_id = pos 1 }

abbrev in_lobby : Session
in_lobby = record new_session { uid = some 9; state = SessionState.logged }

abbrev sessions : Ssmgr
sessions = record {
  store = λ sid. if sid == 1 then in_game else in_lobby;
  m_sessions = 1 ∷ 2 ∷ [];
  m_uid2session = (7, 1) ∷ (9, 2) ∷ [];
  m_iter = 0;
}

-- A room in which user 7 waits.
abbrev waiting_room : Room
waiting_room = record room {
  state = State.idle;
  game_state = GameState.idle;
  max_players = pos 3;
  curr_players = 1;
  players = (7, player []) ∷ [];
  seq = 7 ∷ [];
  last_direction = negsuc 0;
  last_update_seat_time = time_min;
}

abbrev server_of : Room → Server
server_of r = record {
  m_rooms = (1, r) ∷ [];
  m_next_room_id = 1;
  gen = 5;
  ssmgr = sessions;
  sent = [];
}

abbrev server : Server
server = server_of waiting_room

waiting_room-IsRoom : IsRoom 1 waiting_room
waiting_room-IsRoom = record {
  same_id = refl;
  counted = refl;
  entries = refl;
  seats = (refl, tt);
  once = λ u. refl;
  single = λ u. ground arith;
  fits = inl (omega arith);
}

server-rooms : (id : ℕ) (r : Room) → lookup id server.m_rooms ≡ some r → IsRoom id r
server-rooms id r e = elim (Bool-cases (1 == id)) [
  | inl k ↦
      let its : waiting_room ≡ r = let found = rw k at e in cc in
      let at : 1 ≡ id = (==_iff 1 id).0 k in
      subst (λ (j : ℕ). IsRoom j r) at (subst (IsRoom 1) its waiting_room-IsRoom)
  | inr k ↦ let found = rw k at e in absurd (ground arith)
]

users :
    (uid sid : ℕ)
    → lookup uid sessions.m_uid2session ≡ some sid
    → ((uid ≡ 7) × (sid ≡ 1)) ⊎ ((uid ≡ 9) × (sid ≡ 2))
users uid sid e = ground arith

server-IsServer : IsServer server
unfolding find_session is_gaming
server-IsServer = record {
  rooms = server-rooms;
  keyed = λ id. ground arith;
  next_fits = omega arith;
  attached = λ uid sid e. elim (users uid sid e) [
    | inl (p, q) ↦ rw (p, q) refl
    | inr (p, q) ↦ rw (p, q) refl
  ];
  placed = λ uid sid e g. elim (users uid sid e) [
    | inl (p, q) ↦ rw (p, q) (inr (1, waiting_room, refl, refl, refl))
    | inr (p, q) ↦ let idle = rw q at g in absurd (ground arith)
  ];
}

abbrev size : Bytes
size title = 4

new_room_id-FreshId_example :
    (id : ℕ) × ((next : ℕ) × ((new_room_id server ≡ some (id, next))
        × FreshId server.m_rooms id next))
new_room_id-FreshId_example = new_room_id-FreshId server (omega arith) (omega arith)

create_room_req-Returns_example : Returns IsServer (create_room_req size server 2 9 "room" (pos 4))
unfolding find_session
create_room_req-Returns_example =
    create_room_req-Returns size 2 9 "room" (pos 4) server-IsServer refl (omega arith)

enter_room_req-Returns_example : Returns IsServer (enter_room_req server 2 9 (pos 1) false)
unfolding find_session
enter_room_req-Returns_example = enter_room_req-Returns 2 9 (pos 1) false server-IsServer refl

-- The server after user 7 has left room 1, which is then gone.
gone : (s' : Server) × (leave_room_req plain server 1 7 (pos 1) ≡ ok s')
unfolding leave_room_req plays_in is_gaming ◌==ℤ◌ find_room is_dealing run_room game_player_leave
    world_of leave_seat return_hand is_playing close_seat
gone = (_, refl)

Reach-IsServer_example : IsServer (get_room_list_req gone.0 2)
unfolding find_session
Reach-IsServer_example =
    Reach-IsServer {R = plain} {size = size} plain-KeepsSeats {s = server}
      {s' = get_room_list_req gone.0 2} server-IsServer
      (after (after here (leaves 1 7 (pos 1) refl gone.1)) (lists 2 refl))

idle_requests-Barred_example :
    (get_ready_req server 2 9 (pos 1)
      ≡ ok (answer 2 (get_ready_rsp ErrCode.api_invalid_call) server))
    × (shuffle_room_seats_req plain (pos 5) server 2 9 (pos 1)
        ≡ ok (answer 2 (shuffle_room_seats_rsp ErrCode.api_invalid_call) server))
    × (room_kickout_player_req plain server 2 9 (pos 1) 7
        ≡ ok (answer 2 (room_kickout_player_rsp ErrCode.api_invalid_call) server))
    × (start_game_req plain server 2 9 (pos 1)
        ≡ ok (answer 2 (start_game_rsp ErrCode.api_invalid_call) server))
unfolding is_gaming
idle_requests-Barred_example = idle_requests-Barred plain server 2 9 7 (pos 1) (pos 5) (inl refl)

game_requests-Barred_example :
    (game_play_card_req plain server 1 7 (pos 1) red_5 false (pos 0)
      ≡ ok (answer 1 (game_play_card_rsp ErrCode.api_invalid_call) server))
    × (game_deal_card_req plain server 1 7 (pos 1)
        ≡ ok (answer 1 (game_deal_card_rsp ErrCode.api_invalid_call) server))
    × (game_report_no_uno_req plain server 1 7 (pos 1)
        ≡ ok (answer 1 (game_report_no_uno_rsp ErrCode.api_invalid_call) server))
unfolding find_room is_playing playing_only
game_requests-Barred_example =
    game_requests-Barred plain server 1 7 (pos 1) red_5 (pos 0) false
      (inr (inr (inr (waiting_room, refl, refl))))

-- The same sessions with the game of the table.
abbrev game_server : Server
game_server = server_of room

game_server-Admitted : Admitted playing_only game_server 1 1 room
unfolding is_gaming playing_only is_playing
game_server-Admitted = record { gaming = refl; its_room = refl; found = refl; fits = refl }

game_play_card_req_lem_example :
    PlayAnswered game_server
      (game_play_card_req plain game_server 1 7 (pos 1) red_5 true (pos 0))
      1
      7
      1
      room
      red_5
      (pos 0)
      true
game_play_card_req_lem_example =
    game_play_card_req_lem plain-IsRandom game_server 1 7 1 room _ red_5 (pos 0) true
      game_server-Admitted refl room-IsTable

abbrev user : ℕ
user = 7

game_deal_card_req_lem_example :
    ((user ≡ user)
      × ((w' : World) × (game_deal_card_req plain game_server 1 7 (pos 1)
            ≡ ok (answered 1 1 (game_deal_card_rsp ErrCode.ok) w' game_server))
          × DealtInTurn (world_of game_server room) 7 w'))
    ⊎ ((user ≢ user)
        × (game_deal_card_req plain game_server 1 7 (pos 1)
            ≡ ok (
                answered 1 1
                  (game_deal_card_rsp ErrCode.api_game_cannot_deal_card)
                  (world_of game_server room)
                  game_server)))
unfolding seat
game_deal_card_req_lem_example =
    game_deal_card_req_lem plain-IsRandom game_server 1 7 7 1 room _ game_server-Admitted refl
      room-IsTable refl

-- Two players, of whom the one who is not the owner is ready.
abbrev ready_room : Room
ready_room = record waiting_room {
  curr_players = 2;
  players = (7, player []) ∷ (9, record (player []) { ready = true }) ∷ [];
  seq = 7 ∷ 9 ∷ [];
}

ready_room-IsRoom : IsRoom 1 ready_room
ready_room-IsRoom = record {
  same_id = refl;
  counted = refl;
  entries = refl;
  seats = (refl, (refl, tt));
  once = λ u. refl;
  single = λ u. ground arith;
  fits = inr refl;
}

ready_server-Admitted : Admitted idle_only (server_of ready_room) 1 1 ready_room
unfolding is_gaming idle_only is_playing
ready_server-Admitted = record { gaming = refl; its_room = refl; found = refl; fits = refl }

start_game_req_lem_example :
    (s' : Server) × (r' : Room) × (start_game_req plain (server_of ready_room) 1 7 (pos 1) ≡ ok s')
    × (lookup 1 s'.m_rooms ≡ some r')
    × Started ready_room r'
unfolding all_ready
start_game_req_lem_example =
    start_game_req_lem plain-IsRandom (server_of ready_room) 1 7 1 ready_room _
      ready_server-Admitted refl ready_room-IsRoom refl refl (omega arith) (omega arith) refl
      (inr refl) (inl refl)

server-Admitted : Admitted idle_only server 1 1 waiting_room
unfolding is_gaming idle_only is_playing
server-Admitted = record { gaming = refl; its_room = refl; found = refl; fits = refl }

shuffle_room_seats_req-never_example :
    shuffle_room_seats_req plain (pos 1000000) server 1 7 (pos 1)
    ≡ ok (answer 1 (shuffle_room_seats_rsp ErrCode.api_room_update_seat_cooldown) server)
shuffle_room_seats_req-never_example =
    shuffle_room_seats_req-never plain server 1 7 1 1000000 waiting_room _ server-Admitted refl refl
      refl (omega arith)

events_unheard_example :
    let e = registered (pos 5) 1 7 (λ s. ok s) in
    (emit_login e server ≡ ok server)
    × (emit_logout e server ≡ ok server)
    × (disconnect e 1 server
        ≡ ok (
            if (on_disconnect 1 server.ssmgr).0
            then record server { ssmgr = (on_disconnect 1 server.ssmgr).1 }
            else server))
events_unheard_example = events_unheard (pos 5) 1 7 (λ s. ok s) server

enter_room_req-loses_example :
    (s' : Server) × (enter_room_req server 1 7 (pos 1) true ≡ ok s')
    × (s'.sent ≡ server.sent ++ reply_to 1 (enter_room_rsp ErrCode.api_invalid_call none) ∷ [])
    × (s'.m_rooms ≡ server.m_rooms)
    × ((s'.ssmgr.store 1).state ≡ SessionState.gaming)
    × ((id' : ℕ) → in_room any_state s' 1 (pos id') ≡ none)
enter_room_req-loses_example = enter_room_req-loses server 1 7 1 refl refl
