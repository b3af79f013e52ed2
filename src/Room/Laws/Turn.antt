-- ===== src/Room/Laws/Turn.antt =====
-- `game_cursor_move` of src/game/room.cpp goes round the table.
use native.Mathlib.Nat.{mod-lt, mod-eq_of_lt, mod-add-mod}
use uno_server.Common.{
  ℕ, zero, suc, ◌+◌, ◌-◌, ◌%◌, ◌<◌, ◌≡◌, refl, sym, ap, ◌∙◌, none, arith, ℤ, pos, negsuc,
}
use uno_server.Room.Types.{Room}
use uno_server.Room.Cursor.{sign, move_once, move_times, game_cursor_move}

-- The seat after and the seat before.
move_once_forward : (n i : ℕ) → i < n → move_once n (pos 1) (pos i) ≡ pos ((i + 1) % n)
unfolding move_once
move_once_forward n i h = grind (arith, mod-eq_of_lt)

move_once_back :
    (n i : ℕ)
    → i < n
    → (j : ℕ) × (move_once n (negsuc 0) (pos i) ≡ pos j) × (j < n) × ((j + 1) % n ≡ i)
unfolding move_once
move_once_back n zero h = (n - 1, ground arith, omega arith, grind arith)
move_once_back n (suc i) h = (i, ground arith, omega arith, grind (arith, mod-eq_of_lt))

add-zero-mod : (i n : ℕ) → i < n → (i + 0) % n ≡ i
add-zero-mod i n h = let e : i + 0 ≡ i = omega arith in rw e (mod-eq_of_lt h)

mod-add-suc : (i k n : ℕ) → ((i + 1) % n + k) % n ≡ (i + suc k) % n
mod-add-suc i k n =
    let e : i + 1 + k ≡ i + suc k = omega arith in mod-add-mod (i + 1) n k ∙ ap (λ t. t % n) e

mod-suc-add : (j k n : ℕ) → ((j + k) % n + 1) % n ≡ (j + suc k) % n
mod-suc-add j k n =
    let e : j + k + 1 ≡ j + suc k = omega arith in mod-add-mod (j + k) n 1 ∙ ap (λ t. t % n) e

pub move_times_forward : (k n i : ℕ) → i < n → move_times k n (pos 1) (pos i) ≡ pos ((i + k) % n)
unfolding move_times
move_times_forward zero n i h = ap pos (sym (add-zero-mod i n h))
move_times_forward (suc k) n i h = rw (move_once_forward n i h) (
    move_times_forward k n ((i + 1) % n) (mod-lt (i + 1) (omega arith))
    ∙ ap pos (mod-add-suc i k n))

pub move_times_back :
    (k n i : ℕ)
    → i < n
    → (j : ℕ) × (move_times k n (negsuc 0) (pos i) ≡ pos j) × (j < n) × ((j + k) % n ≡ i)
unfolding move_times
move_times_back zero n i h = (i, refl, h, add-zero-mod i n h)
move_times_back (suc k) n i h =
    let (i1, e1, h1, m1) = move_once_back n i h in
    let (j, e, hj, m) = move_times_back k n i1 h1 in
    (j, rw e1 e, hj, sym (mod-suc-add j k n) ∙ ap (λ t. (t + 1) % n) m ∙ m1)

sign_zero : sign (pos 0) ≡ pos 0
unfolding sign
sign_zero = ground arith

sign_pos : (s : ℕ) → sign (pos (suc s)) ≡ pos 1
unfolding sign
sign_pos s = ground arith

sign_negsuc : (s : ℕ) → sign (negsuc s) ≡ negsuc 0
unfolding sign
sign_negsuc s = ground arith

-- A positive step goes forward round the table.
pub game_cursor_move_forward :
    (r : Room) (i k : ℕ)
    → r.cursor ≡ pos i
    → i < r.curr_players
    → (game_cursor_move r none (pos k)).cursor ≡ pos ((i + k) % r.curr_players)
unfolding game_cursor_move move_times
game_cursor_move_forward r i zero e h = rw e (ap pos (sym (add-zero-mod i r.curr_players h)))
game_cursor_move_forward r i (suc k) e h =
    rw (e, sign_pos k) (move_times_forward (suc k) r.curr_players i h)

-- A move forward ends k seats on, a move back ends at the seat from which k seats on lead to the
-- old one; the cursor stays at a seat.
pub game_cursor_move_lem :
    (r : Room) (i k : ℕ)
    → r.cursor ≡ pos i
    → i < r.curr_players
    → ((game_cursor_move r none (pos k)).cursor ≡ pos ((i + k) % r.curr_players))
      × ((j : ℕ) × ((game_cursor_move r none (negsuc k)).cursor ≡ pos j)
          × (j < r.curr_players)
          × ((j + suc k) % r.curr_players ≡ i))
unfolding game_cursor_move
game_cursor_move_lem r i k e h = (
  game_cursor_move_forward r i k e h,
  rw (e, sign_negsuc k) (move_times_back (suc k) r.curr_players i h),
)

move_once_zero : (n i : ℕ) → i < n → move_once n (pos 0) (pos i) ≡ pos i
unfolding move_once
move_once_zero n i h = ground arith

move_times_zero : (k n i : ℕ) → i < n → move_times k n (pos 0) (pos i) ≡ pos i
unfolding move_times
move_times_zero zero n i h = refl
move_times_zero (suc k) n i h = rw (move_once_zero n i h) (move_times_zero k n i h)

-- From a seat the loop ends at a seat.
pub move_times_in_range :
    (k n i : ℕ) (step : ℤ)
    → i < n
    → (j : ℕ) × (move_times k n (sign step) (pos i) ≡ pos j) × (j < n)
move_times_in_range k n i (pos zero) h = (i, rw sign_zero (move_times_zero k n i h), h)
move_times_in_range k n i (pos (suc s)) h =
    ((i + k) % n, rw (sign_pos s) (move_times_forward k n i h), mod-lt (i + k) (omega arith))
move_times_in_range k n i (negsuc s) h =
    let (j, e, hj, m) = move_times_back k n i h in (j, rw (sign_negsuc s) e, hj)
