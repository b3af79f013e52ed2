-- ===== src/Manager/Guard.antt =====
-- What most requests of src/game/room.cpp start with: the session plays in the room it names, the
-- room exists and is in the state for the request. Each of these refusals answers
-- `api_invalid_call` and changes nothing; then the player's entry is asserted. A request takes the
-- handle of its session and the uid of that session.
use uno_server.Common.{
  ℕ, Bool, true, not, ◌&&◌, Option, none, some, List, ℤ, pos, negsuc, ◌==ℤ◌, if◌then◌else◌, lookup,
  Outcome, ok, assert_some, ◌>>=◌,
}
use uno_server.Session.Types.{Session, is_gaming}
use uno_server.Room.Types.{Room, Player}
use uno_server.Room.Leave.{is_playing}
use uno_server.Manager.Answers.{ErrCode, Reply}
use uno_server.Manager.Types.{Server, answer}

-- `ss->state() == Session::State::gaming` and `data["room_id"].get_integer() == room_id`
unfoldable pub plays_in : Session → ℤ → Bool
plays_in ss room_id = is_gaming ss.state && (ss.room_id ==ℤ room_id)

-- The key and the room, if its state is allowed.
unfoldable pub admitted : (Room → Bool) → ℕ → Option Room → Option (ℕ × Room)
admitted allowed id none = none
admitted allowed id (some r) = if allowed r then some (id, r) else none

unfoldable pub find_allowed : (Room → Bool) → ℤ → List (ℕ × Room) → Option (ℕ × Room)
unfolding admitted
find_allowed allowed (pos id) rooms = admitted allowed id (lookup id rooms)
find_allowed allowed (negsuc k) rooms = none

unfoldable pub in_room : (Room → Bool) → Server → ℕ → ℤ → Option (ℕ × Room)
unfolding find_allowed
in_room allowed s sid room_id =
    if plays_in (s.ssmgr.store sid) room_id then find_allowed allowed room_id s.m_rooms else none

-- The tests of `room->state`.
unfoldable pub idle_only : Room → Bool
idle_only r = not (is_playing r.state)

unfoldable pub playing_only : Room → Bool
playing_only r = is_playing r.state

unfoldable pub any_state : Room → Bool
any_state r = true

-- The part of a request behind its guards.
abbrev pub Action : Type 0
Action = ℕ → Room → Player → Server → Outcome Server

unfoldable pub act_on :
    (ErrCode → Reply) → Action → ℕ → ℕ → Server → Option (ℕ × Room) → Outcome Server
act_on rsp act sid uid s none = ok (answer sid (rsp ErrCode.api_invalid_call) s)
act_on rsp act sid uid s (some (id, r)) = do
  player ← assert_some (lookup uid r.players)
  act id r player s

unfoldable pub room_request :
    (ErrCode → Reply) → (Room → Bool) → Action → Server → ℕ → ℕ → ℤ → Outcome Server
unfolding act_on
room_request rsp allowed act s sid uid room_id =
    act_on rsp act sid uid s (in_room allowed s sid room_id)
