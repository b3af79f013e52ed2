-- ===== src/Manager/Seats.antt =====
-- `get_ready_req`, `shuffle_room_seats_req` and `room_use_voice_req` of src/game/room.cpp. The time
-- that a request reads from the clock is an argument.
use uno_server.Common.{
  ℕ, ◌*◌, Bool, true, false, none, some, ◌==◌, if◌then◌else◌, ℤ, pos, leb_ℤ, ltb_ℤ, insert,
  map_values, Outcome, ok, ◌>>=◌,
}
use uno_server.Session.Types.{sub_time}
use uno_server.Room.Types.{Room, Player, PlayerMap}
use uno_server.Room.Random.{Random}
use uno_server.Room.Notify.{World, Event, broadcast_event}
use uno_server.Manager.Answers.{ErrCode, get_ready_rsp, shuffle_room_seats_rsp, room_use_voice_rsp}
use uno_server.Manager.Types.{Server, answer, world_of, put_back, run_room}
use uno_server.Manager.Guard.{Action, idle_only, any_state, room_request}

-- A write to a player of a room.
unfoldable pub with_player : ℕ → Player → Room → Room
with_player uid p r = record r { players = insert uid p r.players }

unfoldable pub get_ready : ℕ → ℕ → Action
get_ready sid uid id r p s = do
  s1 ←
      (if p.ready
        then ok s
        else run_room id (λ w. ok (broadcast_event (some uid) Event.player_ready w))
            (with_player uid (record p { ready = true }) r) s)
  ok (answer sid (get_ready_rsp ErrCode.ok) s1)

unfoldable pub get_ready_req : Server → ℕ → ℕ → ℤ → Outcome Server
get_ready_req s sid uid room_id =
    room_request get_ready_rsp idle_only (get_ready sid uid) s sid uid room_id

-- `OWNER_UPDATE_SEAT_INTERVAL` and `PLAYER_USE_VOICE_INTERVAL`, handed to
-- `std::chrono::microseconds`
abbrev pub owner_update_seat_interval : ℕ
owner_update_seat_interval = 10 * 1000

abbrev pub player_use_voice_interval : ℕ
player_use_voice_interval = 10 * 1000

-- `now - room->last_update_seat_time <= ...`
unfoldable pub is_seat_cooldown : ℤ → Room → Bool
is_seat_cooldown now r =
    leb_ℤ (sub_time now r.last_update_seat_time) (pos owner_update_seat_interval)

unfoldable pub unready : PlayerMap → PlayerMap
unready = map_values (λ p. record p { ready = false })

-- The new order of the seats; nobody is ready for it.
unfoldable pub reseat : Random → ℤ → World → World
unfolding unready
reseat R now w =
    let r = w.room in
    let shuffled = R.shuffle_seats w.gen r.seq in
    record w {
      room = record r {
        seq = shuffled.0;
        last_update_seat_time = now;
        players = unready r.players;
      };
      gen = shuffled.1;
    }

unfoldable pub tell_seats : World → World
tell_seats w = broadcast_event none (Event.update_seats w.room.seq) w

unfoldable pub shuffle_room_seats : Random → ℤ → ℕ → ℕ → Action
unfolding tell_seats
shuffle_room_seats R now sid uid id r p s =
    let shuffled = put_back id (tell_seats (reseat R now (world_of s r))) s in
    if r.owner == uid
    then (if is_seat_cooldown now r
        then ok (answer sid (shuffle_room_seats_rsp ErrCode.api_room_update_seat_cooldown) s)
        else ok (answer sid (shuffle_room_seats_rsp ErrCode.ok) shuffled))
    else ok (answer sid (shuffle_room_seats_rsp ErrCode.api_room_not_owner) s)

unfoldable pub shuffle_room_seats_req : Random → ℤ → Server → ℕ → ℕ → ℤ → Outcome Server
shuffle_room_seats_req R now s sid uid room_id =
    room_request shuffle_room_seats_rsp idle_only (shuffle_room_seats R now sid uid) s sid uid
      room_id

-- `now - player.last_use_voice_time < ...`
unfoldable pub is_voice_cooldown : ℤ → Player → Bool
is_voice_cooldown now p = ltb_ℤ (sub_time now p.last_use_voice_time) (pos player_use_voice_interval)

-- Everybody hears the voice, the player too.
unfoldable pub room_use_voice : ℤ → ℕ → ℕ → ℤ → Action
room_use_voice now sid uid voice_id id r p s =
    let spoken =
      put_back id
        (broadcast_event none (Event.use_voice uid voice_id)
          (world_of s (with_player uid (record p { last_use_voice_time = now }) r)))
        s in
    if is_voice_cooldown now p
    then ok (answer sid (room_use_voice_rsp ErrCode.api_room_use_voice_cooldown) s)
    else ok (answer sid (room_use_voice_rsp ErrCode.ok) spoken)

unfoldable pub room_use_voice_req : ℤ → Server → ℕ → ℕ → ℤ → ℤ → Outcome Server
room_use_voice_req now s sid uid room_id voice_id =
    room_request room_use_voice_rsp any_state (room_use_voice now sid uid voice_id) s sid uid
      room_id
