-- ===== src/Card.antt =====
-- src/game/card.h: a card is an `int` with a colour in bits 0 to 2 and a function in bits 3 to 6.
pub mod Deck
pub mod Laws
use Prim.Native.Nat.{bit_or}
use uno_server.Common.{
  ℕ, ◌-◌, ◌*◌, ◌/◌, ◌%◌, Bool, true, false, not, ◌&&◌, ◌||◌, ◌==◌, if◌then◌else◌, ℤ, pos, negsuc,
  leb_ℤ, Outcome, ok, assert_that, ◌>>=◌, ◌>>◌,
}

-- `enum Color`
abbrev pub color_all : ℕ
color_all = 0

abbrev pub color_red : ℕ
color_red = 1

abbrev pub color_yellow : ℕ
color_yellow = 2

abbrev pub color_blue : ℕ
color_blue = 3

abbrev pub color_green : ℕ
color_green = 4

-- `enum Func`; the number card n is `func_0 + n`.
abbrev pub func_none : ℕ
func_none = 0

abbrev pub func_0 : ℕ
func_0 = 1

abbrev pub func_9 : ℕ
func_9 = 10

abbrev pub func_skip : ℕ
func_skip = 11

abbrev pub func_reverse : ℕ
func_reverse = 12

abbrev pub func_draw2 : ℕ
func_draw2 = 13

abbrev pub func_draw4 : ℕ
func_draw4 = 14

abbrev pub func_chgcolor : ℕ
func_chgcolor = 15

-- `c & 7` and `c & 15` of a two's complement `int`.
unfoldable pub low3 : ℤ → ℕ
low3 (pos n) = n % 8
low3 (negsuc n) = 7 - n % 8

unfoldable pub low4 : ℤ → ℕ
low4 (pos n) = n % 16
low4 (negsuc n) = 15 - n % 16

-- `c >> 3`, which rounds down.
unfoldable pub shr3 : ℤ → ℤ
shr3 (pos n) = pos (n / 8)
shr3 (negsuc n) = negsuc (n / 8)

unfoldable pub is_valid_color : ℤ → Bool
is_valid_color c = leb_ℤ (pos color_all) c && leb_ℤ c (pos color_green)

unfoldable pub is_valid_func : ℤ → Bool
is_valid_func f = leb_ℤ (pos func_none) f && leb_ℤ f (pos func_chgcolor)

unfoldable pub get_color : ℤ → Outcome ℕ
unfolding is_valid_color low3
get_color c = do let ret = low3 c; assert_that (is_valid_color (pos ret)); ok ret

unfoldable pub get_func : ℤ → Outcome ℕ
unfolding is_valid_func low4 shr3
get_func c = do let ret = low4 (shr3 c); assert_that (is_valid_func (pos ret)); ok ret

-- `(c & 7) | ((f & 15) << 3)`
unfoldable pub card_code : ℤ → ℤ → ℤ
unfolding low3 low4
card_code c f = pos (bit_or (low3 c) (low4 f * 8))

unfoldable pub compose_card : ℤ → ℤ → Outcome ℤ
unfolding is_valid_color is_valid_func card_code
compose_card c f = do
  assert_that (is_valid_color c)
  assert_that (is_valid_func f)
  ok (card_code c f)

-- As in the source, the second component is read by `get_color` too.
unfoldable pub decompose_card : ℤ → Outcome (ℕ × ℕ)
unfolding get_color
decompose_card c = do color ← get_color c; func ← get_color c; ok (color, func)

unfoldable pub is_valid_card : ℤ → Bool
unfolding is_valid_color is_valid_func low3 low4 shr3
is_valid_card c =
    let color = low3 c in
    let func = low4 (shr3 c) in
    if not (is_valid_color (pos color))
    then false
    else if not (is_valid_func (pos func))
    then false
    else if (func == func_chgcolor) && not (color == color_all)
    then false
    else true

-- The test of `is_func_card` on a function code.
unfoldable pub is_action : ℕ → Bool
is_action func =
    func == func_skip
    || func == func_reverse
    || func == func_draw2
    || func == func_draw4
    || func == func_chgcolor

unfoldable pub is_func_card : ℤ → Outcome Bool
unfolding get_func is_action
is_func_card c = do func ← get_func c; ok (is_action func)
