-- ===== src/Stater/Events.antt =====
-- The calls of `call_stat_event` in src/game/room.cpp, with the C++ types of their arguments.
use uno_server.Common.{ℕ, Bool, true, false, ◌&&◌, Option, List, [], ◌∷◌, ℤ}
use uno_server.Stater.Types.{DealReason, LeftReason}

pub data StatCall : Type 0 where
  game_start : StatCall
  player_left : ℕ → LeftReason → StatCall
  player_win : ℕ → StatCall
  -- uid, rest_count, deal_count, cards, reason, report_by, cursor
  card_deal : ℕ → ℕ → ℕ → List ℤ → DealReason → Option ℕ → ℤ → StatCall
  -- uid, card, need_uno, with_uno, rest_count, cards, ahead
  card_play : ℕ → ℤ → Bool → Bool → ℕ → List ℤ → Bool → StatCall

-- What an argument is after `Args... args` has copied it: never a reference.
pub data ArgType : Type 0 where
  room_ptr int_value bool_value size_value card_vector deal_reason left_reason null : ArgType

-- The parameter types of the handlers.
pub data ParamType : Type 0 where
  room_ptr int_value bool_value size_value card_vector_ref deal_reason string snapshot_ptr :
      ParamType

-- Whether a parameter takes a temporary of that type: arithmetic types convert to one another, a
-- scoped enumeration converts to nothing else, and a reference to a non-const vector binds to no
-- temporary.
unfoldable pub accepts : ParamType → ArgType → Bool
accepts ParamType.room_ptr ArgType.room_ptr = true
accepts ParamType.int_value ArgType.int_value = true
accepts ParamType.int_value ArgType.bool_value = true
accepts ParamType.int_value ArgType.size_value = true
accepts ParamType.bool_value ArgType.int_value = true
accepts ParamType.bool_value ArgType.bool_value = true
accepts ParamType.bool_value ArgType.size_value = true
accepts ParamType.size_value ArgType.int_value = true
accepts ParamType.size_value ArgType.bool_value = true
accepts ParamType.size_value ArgType.size_value = true
accepts ParamType.deal_reason ArgType.deal_reason = true
accepts ParamType.snapshot_ptr ArgType.null = true
accepts _ _ = false

-- `std::is_invocable_v` of a member function, after the object.
unfoldable pub is_invocable : List ParamType → List ArgType → Bool
unfolding accepts
is_invocable [] [] = true
is_invocable (p ∷ ps) (a ∷ xs) = accepts p a && is_invocable ps xs
is_invocable _ _ = false

-- The parameters of `on_game_start`, `on_player_left`, `on_player_win`, `on_card_deal` and
-- `on_card_play`.
unfoldable pub params : StatCall → List ParamType
params game_start = ParamType.room_ptr ∷ ParamType.int_value ∷ ParamType.snapshot_ptr ∷ []
params (player_left _ _) = ParamType.room_ptr ∷ ParamType.int_value ∷ ParamType.string ∷ []
params (player_win _) = ParamType.room_ptr ∷ ParamType.int_value ∷ ParamType.int_value ∷ []
params (card_deal _ _ _ _ _ _ _) =
    ParamType.room_ptr ∷ ParamType.int_value ∷ ParamType.size_value ∷ ParamType.size_value
    ∷ ParamType.card_vector_ref ∷ ParamType.deal_reason ∷ ParamType.int_value ∷ ParamType.int_value
    ∷ []
params (card_play _ _ _ _ _ _ _) =
    ParamType.room_ptr ∷ ParamType.int_value ∷ ParamType.int_value ∷ ParamType.bool_value
    ∷ ParamType.bool_value ∷ ParamType.int_value ∷ ParamType.card_vector_ref ∷ ParamType.bool_value
    ∷ []

-- The arguments that `call_stat_event` hands to `on_event`: room, sender and the rest.
unfoldable pub arguments : StatCall → List ArgType
arguments game_start = ArgType.room_ptr ∷ ArgType.int_value ∷ ArgType.null ∷ []
arguments (player_left _ _) = ArgType.room_ptr ∷ ArgType.int_value ∷ ArgType.left_reason ∷ []
arguments (player_win _) = ArgType.room_ptr ∷ ArgType.int_value ∷ ArgType.int_value ∷ []
arguments (card_deal _ _ _ _ _ _ _) =
    ArgType.room_ptr ∷ ArgType.int_value ∷ ArgType.size_value ∷ ArgType.size_value
    ∷ ArgType.card_vector ∷ ArgType.deal_reason ∷ ArgType.int_value ∷ ArgType.int_value ∷ []
arguments (card_play _ _ _ _ _ _ _) =
    ArgType.room_ptr ∷ ArgType.int_value ∷ ArgType.int_value ∷ ArgType.bool_value
    ∷ ArgType.bool_value ∷ ArgType.int_value ∷ ArgType.card_vector ∷ ArgType.bool_value ∷ []
