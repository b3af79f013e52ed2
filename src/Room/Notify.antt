-- ===== src/Room/Notify.antt =====
-- `send_event`, `broadcast_event` and `call_stat_event` of src/game/room.h.
use uno_server.Common.{
  ℕ, Bool, false, Option, none, some, List, [], ◌∷◌, ◌++◌, ◌==◌, if◌then◌else◌, ℤ, Outcome, ok,
  ◌>>=◌,
}
use uno_server.Stater.Types.{DealReason, LeftReason, Stat, DisplayStat}
use uno_server.Stater.Events.{StatCall}
use uno_server.Stater.Dispatch.{call_stat_event}
use uno_server.Room.Types.{Room, PlayerMap, PlayerSnapshot, RoomSnapshot, view}

-- The events of `room_event_ntf` with their arguments; a null list is `none`.
pub data Event : Type 0 where
  game_start : RoomSnapshot → Event
  first_card : ℤ → Event
  -- rest_count, count, cards, reason, req_by, cursor
  card_deal : ℕ → ℕ → Option (List ℤ) → DealReason → Option ℕ → ℤ → Event
  -- card, need_uno, with_uno, rest_count, rest, ahead
  card_play : ℤ → Bool → Bool → ℕ → Option (List ℤ) → Bool → Event
  -- uid, timer, last, last_chg_color, direction, draw, last_can_report, can_play_ahead
  thinking : ℕ → ℤ → ℤ → ℤ → ℤ → ℕ → Option ℕ → Bool → Event
  -- `thinking` as `game_player_leave` sends it, without the timer
  thinking_untimed : ℕ → ℤ → ℤ → ℤ → ℕ → Option ℕ → Bool → Event
  player_left : LeftReason → Event
  owner_changed : ℕ → Event
  player_win : ℕ → Event
  game_stat : List DisplayStat → ℕ → Option ℕ → Event
  player_joined : PlayerSnapshot → Event
  player_ready be_kicked player_online player_offline game_dismiss : Event
  update_seats : List ℕ → Event
  -- uid, voice_id
  use_voice : ℕ → ℤ → Event

-- What leaves the room: `room_event_ntf` to a session, from a sender, and the call `round_flow`.
pub data Message : Type 0 where
  room_event_ntf : ℕ → Option ℕ → Event → Message
  round_flow : ℕ → Stat → Message

-- A room with what its code touches beside it: the generators, the session table, the messages
-- sent so far, the oldest first.
pub record World : Type 0 where
  pub room : Room
  pub gen : ℕ
  pub has_session : ℕ → Bool
  pub sent : List Message

-- An event for a player without a session is dropped.
unfoldable pub send_event : ℕ → Option ℕ → Event → World → World
send_event uid sender event w =
    if w.has_session uid
    then record w { sent = w.sent ++ room_event_ntf uid sender event ∷ [] }
    else w

is_sender : Option ℕ → ℕ → Bool
is_sender none uid = false
is_sender (some u) uid = u == uid

unfoldable pub broadcast_to : PlayerMap → Option ℕ → Event → World → World
unfolding is_sender
broadcast_to [] sender event w = w
broadcast_to ((uid, p) ∷ ps) sender event w =
    broadcast_to ps sender event (if is_sender sender uid then w else send_event uid sender event w)

unfoldable pub broadcast_event : Option ℕ → Event → World → World
broadcast_event sender event w = broadcast_to w.room.players sender event w

-- `room->stater` takes the event.
unfoldable pub stat_event : Bool → StatCall → World → Outcome World
stat_event for_deal call w = do
  g ← call_stat_event for_deal (view w.room) call w.room.stater
  let r = w.room
  ok (record w { room = record r { stater = g } })
