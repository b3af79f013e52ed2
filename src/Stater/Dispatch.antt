-- ===== src/Stater/Dispatch.antt =====
-- `GameStater::on_event` of src/game/stater.h and `call_stat_event` of src/game/room.h.
use uno_server.Common.{ℕ, Bool, true, false, List, if◌then◌else◌, ℤ, Outcome, ok}
use uno_server.Stater.Types.{GameStater}
use uno_server.Stater.Events.{
  StatCall, game_start, player_left, player_win, card_deal, card_play, is_invocable, params,
  arguments,
}
use uno_server.Stater.Handlers.{on_game_start, on_player_left, on_card_deal, on_card_play}
use uno_server.Stater.Display.{on_player_win}

-- What the handlers read of the room.
pub record RoomView : Type 0 where
  pub uids : List ℕ
  pub hands : List ℕ
  pub last_chg_color : ℤ

-- The call that `std::apply` makes. `on_player_left` reads no reason.
unfoldable pub handle : RoomView → StatCall → GameStater → Outcome GameStater
unfolding on_game_start on_player_left on_player_win on_card_deal on_card_play
handle v game_start g = ok (on_game_start v.uids)
handle v (player_left uid reason) g = ok (on_player_left g uid)
handle v (player_win uid) g = on_player_win g uid
handle v (card_deal uid rest_count deal_count cards reason report_by cursor) g =
    on_card_deal v.hands g uid rest_count deal_count cards reason report_by
handle v (card_play uid c need_uno with_uno rest_count cards ahead) g =
    on_card_play v.hands v.last_chg_color g uid c need_uno with_uno rest_count ahead

-- A handler whose parameters do not take the arguments is not called: `if constexpr` leaves the
-- call out.
unfoldable pub on_event : RoomView → StatCall → GameStater → Outcome GameStater
unfolding handle is_invocable params arguments
on_event v call g = if is_invocable (params call) (arguments call) then handle v call g else ok g

-- `event == "card_deal"`
is_card_deal : StatCall → Bool
is_card_deal (card_deal _ _ _ _ _ _ _) = true
is_card_deal game_start = false
is_card_deal (player_left _ _) = false
is_card_deal (player_win _) = false
is_card_deal (card_play _ _ _ _ _ _ _) = false

-- The sender is the player concerned in every call of `card_deal`.
unfoldable pub call_stat_event : Bool → RoomView → StatCall → GameStater → Outcome GameStater
unfolding on_event is_card_deal
call_stat_event for_deal v call g =
    if is_card_deal call then (if for_deal then on_event v call g else ok g) else on_event v call g
