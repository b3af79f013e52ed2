-- ===== src/Room/Laws/Seats.antt =====
-- `game_player_leave` of src/game/room.cpp: whose turn it is when a seat is taken away.
use native.Mathlib.Nat.{mod-eq_of_lt, mod_self}
use uno_server.Common.{
  ℕ, zero, suc, ◌+◌, ◌%◌, ◌<◌, ◌≤◌, ◌≡◌, ◌≢◌, ◌⊎◌, refl, sym, ap, ◌∙◌, Bool, true, false, ◌&&◌,
  none, some, arith, ◌==◌, ==_self, ==_ne, ltb, lt→ltb, if◌then◌else◌, ℤ, pos, negsuc, ◌-ℤ◌, ◌+ℤ◌,
  get_elem?, get_elem?-erase_at_below, get_elem?-erase_at_above, ok, in_range, Bool-cases, inl, inr,
}
use uno_server.Room.Types.{Room, State, GameState, timer_dealing_interval}
use uno_server.Room.Cursor.{seat, game_cursor_move}
use uno_server.Room.Leave.{
  is_playing, is_waiting, is_at, is_above, skip_leaver, close_seat, leave_seat,
}
use uno_server.Room.Laws.Turn.{game_cursor_move_lem}

seat-pos : (r : Room) (c : ℕ) → r.cursor ≡ pos c → seat r ≡ in_range (get_elem? r.seq c)
unfolding seat
seat-pos r c e = rw (e, seat) refl

minus_one : (c : ℕ) → pos (suc c) -ℤ pos 1 ≡ pos c
unfolding ◌-ℤ◌ ◌+ℤ◌
minus_one c = ground arith

close_seat-below :
    (r : Room) (i c : ℕ) → r.cursor ≡ pos (suc c) → i < suc c → seat (close_seat i r) ≡ seat r
unfolding close_seat is_above
close_seat-below r i c e h =
    let moved : (if is_above r.cursor i then r.cursor -ℤ pos 1 else r.cursor) ≡ pos c =
      rw e (rw (lt→ltb i (suc c) h) (minus_one c)) in
    seat-pos (close_seat i r) c moved
    ∙ ap in_range (get_elem?-erase_at_above i c r.seq (omega arith))
    ∙ sym (seat-pos r (suc c) e)

close_seat-above : (r : Room) (i c : ℕ) → r.cursor ≡ pos c → c < i → seat (close_seat i r) ≡ seat r
unfolding close_seat is_above
close_seat-above r i c e h =
    let under : ltb i c ≡ false = ground arith in
    let kept : (if is_above r.cursor i then r.cursor -ℤ pos 1 else r.cursor) ≡ pos c =
      rw e (rw under refl) in
    seat-pos (close_seat i r) c kept
    ∙ ap in_range (get_elem?-erase_at_below i c r.seq h)
    ∙ sym (seat-pos r c e)

-- Whoever is in turn stays in turn when another seat is closed.
close_seat-seat : (r : Room) (i c : ℕ) → r.cursor ≡ pos c → i ≢ c → seat (close_seat i r) ≡ seat r
close_seat-seat r i zero e ne = close_seat-above r i 0 e (omega arith)
close_seat-seat r i (suc c) e ne = elim (Bool-cases (ltb i (suc c))) [
  | inl h ↦ close_seat-below r i c e (ground arith)
  | inr h ↦ close_seat-above r i (suc c) e (ground arith)
]

mod_ne : (c n : ℕ) → c < n → 2 ≤ n → (c + 1) % n ≢ c
mod_ne c n h two e = elim (Bool-cases (ltb (c + 1) n)) [
  | inl k ↦ let small : (c + 1) % n ≡ c + 1 = mod-eq_of_lt (ground arith) in absurd (omega arith)
  | inr k ↦
      let last : c + 1 ≡ n = ground arith in
      let wrapped : (c + 1) % n ≡ 0 = rw last (mod_self n) in absurd (omega arith)
]

-- With two seats or more the next one is another one.
next_is_other :
    (r : Room) (c : ℕ)
    → r.cursor ≡ pos c
    → c < r.curr_players
    → 2 ≤ r.curr_players
    → (r.direction ≡ pos 1) ⊎ (r.direction ≡ negsuc 0)
    → (j : ℕ) × ((game_cursor_move r none r.direction).cursor ≡ pos j) × (j ≢ c)
next_is_other r c e h two (inl d) = (
  (c + 1) % r.curr_players,
  ap (λ (s : ℤ). (game_cursor_move r none s).cursor) d ∙ (game_cursor_move_lem r c 1 e h).0,
  mod_ne c r.curr_players h two,
)
next_is_other r c e h two (inr d) =
    let (j, moved, hj, back) = (game_cursor_move_lem r c 0 e h).1 in
    (
      j,
      ap (λ (s : ℤ). (game_cursor_move r none s).cursor) d ∙ moved,
      λ same.
          mod_ne c r.curr_players h two
            (ap (λ (t : ℕ). (t + 1) % r.curr_players) (sym same) ∙ back),
    )

-- What the skip does beside the move.
abbrev hurried : Bool → Room → Room
hurried waiting r =
    if waiting
    then record r { game_state = GameState.wait_player; timer = pos timer_dealing_interval }
    else r

hurried-seat :
    (waiting : Bool) (r : Room)
    → ((hurried waiting r).cursor ≡ r.cursor) × (seat (hurried waiting r) ≡ seat r)
unfolding seat
hurried-seat true r = (refl, refl)
hurried-seat false r = (refl, refl)

skip_leaver-hurried :
    (r : Room) (i j : ℕ)
    → (game_cursor_move r none r.direction).cursor ≡ pos j
    → i ≢ j
    → skip_leaver i r
      ≡ (let r1 = game_cursor_move r none r.direction in ok (hurried (is_waiting r1.game_state) r1))
unfolding skip_leaver is_at
skip_leaver-hurried r i j e ne =
    let other : is_at (game_cursor_move r none r.direction).cursor i ≡ false =
      rw e (==_ne j i (λ k. ne (sym k))) in
    rw other refl

-- The player at the seat that is closed was in turn.
leave_seat-in_turn :
    (r : Room) (c : ℕ)
    → r.state ≡ State.playing
    → r.cursor ≡ pos c
    → c < r.curr_players
    → 2 ≤ r.curr_players
    → (r.direction ≡ pos 1) ⊎ (r.direction ≡ negsuc 0)
    → (r' : Room) × (leave_seat r (some c) ≡ ok r')
      × (seat r' ≡ seat (game_cursor_move r none r.direction))
unfolding leave_seat is_at is_playing
leave_seat-in_turn r c playing e h two direction =
    let (j, moved, ne) = next_is_other r c e h two direction in
    let r1 = game_cursor_move r none r.direction in
    let r2 = hurried (is_waiting r1.game_state) r1 in
    let (same_cursor, same_seat) = hurried-seat (is_waiting r1.game_state) r1 in
    let here : (is_playing r.state && is_at r.cursor c) ≡ true =
      ap (λ (s : State). is_playing s && is_at r.cursor c) playing ∙ rw e (==_self c) in
    (
      close_seat c r2,
      rw here (rw (skip_leaver-hurried r c j moved (λ k. ne (sym k))) refl),
      close_seat-seat r2 c j (same_cursor ∙ moved) (λ k. ne (sym k)) ∙ same_seat,
    )

leave_seat-other :
    (r : Room) (i c : ℕ)
    → r.cursor ≡ pos c
    → i ≢ c
    → (leave_seat r (some i) ≡ ok (close_seat i r)) × (seat (close_seat i r) ≡ seat r)
unfolding leave_seat is_at is_playing
leave_seat-other r i c e ne =
    let away : is_at r.cursor i ≡ false = rw e (==_ne c i (λ k. ne (sym k))) in
    let not_here : (is_playing r.state && is_at r.cursor i) ≡ false = rw away (and_false r.state) in
    (rw not_here refl, close_seat-seat r i c e ne)
  where
    and_false : (s : State) → (is_playing s && false) ≡ false
    and_false State.idle = refl
    and_false State.playing = refl

-- In a game with the cursor at a seat, a direction of 1 or -1 and two seats or more, the removal of
-- a seat returns. If the leaver was in turn, the turn is with the player whom `game_cursor_move`
-- would choose next, and otherwise with the same player as before.
pub leave_seat_lem :
    (r : Room) (i c : ℕ)
    → r.state ≡ State.playing
    → r.cursor ≡ pos c
    → c < r.curr_players
    → 2 ≤ r.curr_players
    → (r.direction ≡ pos 1) ⊎ (r.direction ≡ negsuc 0)
    → (r' : Room) × (leave_seat r (some i) ≡ ok r')
      × (seat r' ≡ (if i == c then seat (game_cursor_move r none r.direction) else seat r))
leave_seat_lem r i c playing e h two direction = elim (Bool-cases (i == c)) [
  | inl k ↦
      let (r', done, turn) = leave_seat-in_turn r c playing e h two direction in
      let same : i ≡ c = ground arith in
      (r', ap (λ (n : ℕ). leave_seat r (some n)) same ∙ done, rw k turn)
  | inr k ↦
      let (done, turn) = leave_seat-other r i c e (ground arith) in
      (close_seat i r, done, rw k turn)
]
