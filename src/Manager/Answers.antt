-- ===== src/Manager/Answers.antt =====
-- What the requests of src/game/room.cpp answer, with the codes of src/core/errc.h.
use uno_server.Common.{ℕ, Option, Bool, List, ℤ}
use Prim.Native.String.{String}
use uno_server.Room.Types.{RoomSnapshot}
use uno_server.Room.Notify.{Message}

-- The codes of `ErrCode` that the requests answer with.
pub data ErrCode : Type 0 where
  ok api_invalid_call api_cannot_reenter api_room_not_found api_room_is_in_game api_room_is_full
        api_room_invalid_title api_room_not_ready api_game_cannot_play_card
        api_game_cannot_deal_card api_game_cannot_report_no_uno api_room_not_owner
        api_room_update_seat_cooldown api_room_use_voice_cooldown api_room_player_not_found
        api_room_cannot_leave_at_this_time :
      ErrCode

-- One entry of `get_room_list_rsp`.
pub record RoomItem : Type 0 where
  pub id : ℕ
  pub title : String
  pub curr_players : ℕ
  pub max_players : ℤ
  pub playing : Bool
  pub joinable : Bool

-- The answers; a null snapshot is `none`.
pub data Reply : Type 0 where
  create_room_rsp enter_room_rsp : ErrCode → Option RoomSnapshot → Reply
  leave_room_rsp get_ready_rsp shuffle_room_seats_rsp room_use_voice_rsp room_kickout_player_rsp
        start_game_rsp game_play_card_rsp game_deal_card_rsp game_report_no_uno_rsp :
      ErrCode → Reply
  -- rooms, number of sessions
  get_room_list_rsp : ErrCode → List RoomItem → ℕ → Reply

-- What is sent: a room's message with the room's id, or an answer to a session.
pub data Packet : Type 0 where
  from_room : ℕ → Message → Packet
  reply_to : ℕ → Reply → Packet
