-- ===== src/Manager/Create.antt =====
-- `create_room_req` of src/game/room.cpp.
use Prim.Native.String.{String}
use uno_server.Common.{
  ℕ, zero, suc, Bool, false, ◌||◌, Option, none, some, List, [], ◌∷◌, ◌==◌, ltb, ltb_ℤ,
  if◌then◌else◌, ℤ, pos, negsuc, length, insert, contains, Outcome, ok, fault, endless, ◌>>=◌,
}
use uno_server.Stater.Types.{new_stater}
use uno_server.Session.Types.{Session, SessionState, is_logged, set_state, set_dirty, time_min}
use uno_server.Room.Types.{Room, Player, State, GameState, get_snapshot}
use uno_server.Manager.Answers.{ErrCode, create_room_rsp}
use uno_server.Manager.Types.{Server, answer, on_session}

-- `m_next_room_id++`, and back to 1 when the `int` has become negative.
unfoldable pub bump : ℕ → ℕ
bump n = if n == 2147483647 then 1 else suc n

-- The loop that looks for an id, with the next one to try.
unfoldable pub pick_id : ℕ → List (ℕ × Room) → ℕ → Option (ℕ × ℕ)
unfolding bump
pick_id zero rooms next = none
pick_id (suc fuel) rooms next =
    let rest = pick_id fuel rooms (bump next) in
    if contains next rooms then rest else some (next, bump next)

-- A round more than there are rooms is enough.
unfoldable pub new_room_id : Server → Option (ℕ × ℕ)
new_room_id s = pick_id (suc (length s.m_rooms)) s.m_rooms s.m_next_room_id

-- The entry of a player who comes in; `last_use_voice_time` is the epoch.
unfoldable pub new_player : Session → Player
new_player ss = record {
  nick = ss.nick;
  email = ss.email;
  rest = [];
  ready = false;
  offline = false;
  offline_time = time_min;
  last_use_voice_time = pos 0;
}

-- The defaults of `Room` and what the request sets.
unfoldable pub new_room : ℕ → ℕ → String → ℤ → Session → Room
new_room id uid title player_count ss = record {
  id = id;
  state = State.idle;
  title = title;
  owner = uid;
  max_players = player_count;
  curr_players = 1;
  players = (uid, new_player ss) ∷ [];
  seq = uid ∷ [];
  last_win = none;
  last_direction = negsuc 0;
  last_update_seat_time = time_min;
  game_state = GameState.idle;
  deal_turn = 0;
  cursor = pos 0;
  direction = pos 0;
  dealer = some 0;
  timer = pos 0;
  heap = [];
  last = pos 0;
  last_chg_color = pos 0;
  draw = 0;
  last_can_report = none;
  can_play_ahead = false;
  history = [];
  stater = new_stater;
}

-- The session's entry into a room.
unfoldable pub into_room : ℕ → Session → Session
into_room id ss = set_state SessionState.gaming (set_dirty (record ss { room_id = pos id }))

-- The number of bytes of a title, a parameter: the strings of the language are not bytes.
abbrev pub Bytes : Type 0
Bytes = String → ℕ

unfoldable pub is_bad_title : Bytes → String → Bool
is_bad_title size title = ltb (size title) 3 || ltb 10 (size title)

-- `player_count < 2 || player_count > 20`
unfoldable pub is_bad_count : ℤ → Bool
is_bad_count n = ltb_ℤ n (pos 2) || ltb_ℤ (pos 20) n

unfoldable pub place_room : Server → ℕ → ℕ → String → ℤ → Option (ℕ × ℕ) → Outcome Server
place_room s sid uid title player_count none = fault endless
place_room s sid uid title player_count (some (id, next)) = do
  let r = new_room id uid title player_count (s.ssmgr.store sid)
  let s1 =
      on_session sid (into_room id)
        (record s { m_rooms = insert id r s.m_rooms; m_next_room_id = next })
  snapshot ← get_snapshot r (some uid)
  ok (answer sid (create_room_rsp ErrCode.ok (some snapshot)) s1)

-- What comes behind the tests of the arguments.
unfoldable pub open_room : Server → ℕ → ℕ → String → ℤ → Outcome Server
unfolding place_room
open_room s sid uid title player_count =
    if is_logged (s.ssmgr.store sid).state
    then place_room s sid uid title player_count (new_room_id s)
    else ok (answer sid (create_room_rsp ErrCode.api_invalid_call none) s)

-- A bad number of players is answered, and the request goes on.
unfoldable pub create_room_req : Bytes → Server → ℕ → ℕ → String → ℤ → Outcome Server
create_room_req size s sid uid title player_count =
    let refused = answer sid (create_room_rsp ErrCode.api_room_invalid_title none) s in
    if is_bad_title size title
    then ok refused
    else open_room (if is_bad_count player_count then refused else s) sid uid title player_count
