-- ===== src/Room/Rules.antt =====
-- `game_can_play_card` of src/game/room.cpp.
use uno_server.Common.{
  ℕ, Bool, true, false, not, ◌&&◌, ◌||◌, ◌==◌, ltb, if◌then◌else◌, ℤ, pos, ◌==ℤ◌, Outcome, ok,
  fault, assertion, ◌>>=◌,
}
use uno_server.Card.{color_all, func_draw2, func_draw4, func_chgcolor, get_color, get_func}
use uno_server.Room.Types.{Room}

-- The state with a pending penalty, `room->draw > 0`.
unfoldable pub can_follow_draw : ℕ → ℕ → ℕ → ℕ → Outcome Bool
can_follow_draw color func last_color last_func =
    if last_color == color_all
    then (if not (color == color_all)
        then ok false
        else if (last_func == func_chgcolor) && (func == func_draw4)
        then ok true
        else ok false)
    else if last_func == func_draw2
    then (if func == func_draw2
        then ok true
        else if (func == func_draw4) && ((color == last_color) || (color == color_all))
        then ok true
        else ok false)
    else if last_func == func_draw4
    then (if func == func_draw4 then ok true else ok false)
    else fault assertion

-- The rules without a penalty.
unfoldable pub can_follow : ℕ → ℕ → ℕ → ℕ → ℤ → Bool
can_follow color func last_color last_func last_chg_color =
    if (last_color == color_all) && (last_chg_color ==ℤ pos color)
    then true
    else if ((color == last_color) || (color == color_all)) || (func == last_func)
    then true
    else false

-- A card that is not the same as the last one, played in turn.
can_play_other : Room → ℤ → Outcome Bool
can_play_other r c = do
  color ← get_color c
  func ← get_func c
  last_color ← get_color r.last
  last_func ← get_func r.last
  if ltb 0 r.draw
      then can_follow_draw color func last_color last_func
      else ok (can_follow color func last_color last_func r.last_chg_color)

unfoldable pub game_can_play_card : Room → ℤ → Bool → Outcome Bool
unfolding can_play_other
game_can_play_card r c ahead =
    if ahead
    then ok (if not r.can_play_ahead then false else c ==ℤ r.last)
    else if r.last ==ℤ c
    then ok true
    else can_play_other r c
