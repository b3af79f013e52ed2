-- ===== src/Manager/Presence.antt =====
-- The handlers of `login` and `logout` that the constructor in src/game/room.h registers, and
-- `generateIDBaseTime`.
use uno_server.Common.{pos, negsuc, ℕ, ◌*◌, ◌%◌, ◌^◌, true, false, Option, none, some, ℤ, lookup}
use uno_server.Room.Types.{Room, Player}
use uno_server.Room.Notify.{Event, broadcast_event}
use uno_server.Manager.Types.{Server, world_of, put_back}
use uno_server.Manager.Seats.{with_player}

-- `(millis & 0x7FFF) << 16`
unfoldable pub id_base_time : ℕ → ℕ
id_base_time millis = (millis % 2 ^ 15) * 2 ^ 16

-- The others hear that the player has come or gone.
unfoldable pub tell_presence : Event → ℕ → Player → ℕ → Room → Server → Server
tell_presence event uid p id r s =
    put_back id (broadcast_event (some uid) event (world_of s (with_player uid p r))) s

unfoldable pub presence_in : Event → (Player → Player) → ℕ → ℕ → Option Room → Server → Server
unfolding tell_presence
presence_in event f uid id none s = s
presence_in event f uid id (some r) s = elim (lookup uid r.players) [
  | none ↦ s
  | some p ↦ tell_presence event uid (f p) id r s
]

-- A player of a room that is there gets a new entry; otherwise nothing is done.
unfoldable pub change_presence : Event → (Player → Player) → ℕ → ℤ → Server → Server
unfolding presence_in
change_presence event f uid (pos id) s = presence_in event f uid id (lookup id s.m_rooms) s
change_presence event f uid (negsuc k) s = s

unfoldable pub login : ℕ → ℕ → Server → Server
login sid uid s =
    change_presence Event.player_online (λ p. record p { offline = false }) uid
      (s.ssmgr.store sid).room_id s

unfoldable pub logout : ℤ → ℕ → ℕ → Server → Server
logout now sid uid s =
    change_presence Event.player_offline (λ p. record p { offline = true; offline_time = now }) uid
      (s.ssmgr.store sid).room_id s
