-- ===== src/Room/Cursor.antt =====
-- `game_cursor_move` of src/game/room.cpp.
use uno_server.Common.{
  ℕ, zero, suc, Option, none, some, ℤ, pos, negsuc, ◌+ℤ◌, ◌-ℤ◌, ltb_ℤ, leb_ℤ, abs, if◌then◌else◌,
  index_of, get_elem?, Outcome, in_range, fault, out_of_bounds,
}
use uno_server.Room.Types.{Room}

-- `room->seq[room->cursor]`; a negative index lies outside the vector.
unfoldable pub seat : Room → Outcome ℕ
seat r = elim r.cursor [ pos i ↦ in_range (get_elem? r.seq i) | negsuc _ ↦ fault out_of_bounds ]

-- `step > 0 ? 1 : step < 0 ? -1 : 0`
unfoldable pub sign : ℤ → ℤ
sign step = if ltb_ℤ (pos 0) step then pos 1 else if ltb_ℤ step (pos 0) then negsuc 0 else pos 0

-- One round of the loop.
unfoldable pub move_once : ℕ → ℤ → ℤ → ℤ
unfolding ◌+ℤ◌ ◌-ℤ◌
move_once n s cursor =
    let next = cursor +ℤ s in
    if leb_ℤ (pos n) next then pos 0 else if ltb_ℤ next (pos 0) then pos n -ℤ pos 1 else next

unfoldable pub move_times : ℕ → ℕ → ℤ → ℤ → ℤ
move_times zero n s cursor = cursor
move_times (suc k) n s cursor = move_times k n s (move_once n s cursor)

-- The cursor to start from: the seat of `base`, if it is given and sits in the room.
unfoldable pub base_cursor : Room → Option ℕ → ℤ
base_cursor r none = r.cursor
base_cursor r (some base) = elim (index_of base r.seq) [ none ↦ r.cursor | some i ↦ pos i ]

-- The result of the source, the new cursor, is the field. `none` stands for a negative base.
unfoldable pub game_cursor_move : Room → Option ℕ → ℤ → Room
unfolding base_cursor
game_cursor_move r base step = record r {
  cursor = move_times (abs step) r.curr_players (sign step) (base_cursor r base);
}
