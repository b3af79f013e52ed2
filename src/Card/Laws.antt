-- ===== src/Card/Laws.antt =====
-- Colours and functions of composed cards.
use Prim.Native.Nat.{bit_or}
use uno_server.Common.{
  Bool-cases, inl, inr, false, if◌then◌else◌, ℕ, zero, suc, ◌+◌, ◌*◌, ◌≤◌, ◌≡◌, refl, Bool, true,
  arith, ◌==◌, ℤ, pos, negsuc, ok,
}
use uno_server.Card.{low3, low4, shr3, get_func, card_code}

-- Whether a test passes at every number up to a bound, the bound included.
passes : (ℕ → Bool) → ℕ → Bool
passes test zero = test 0
passes test (suc bound) = if test (suc bound) then passes test bound else false

passes-le : (test : ℕ → Bool) (bound k : ℕ) → k ≤ bound → passes test bound ≡ true → test k ≡ true
unfolding passes
passes-le test zero k le e = let z : k ≡ 0 = omega arith in rw z e
passes-le test (suc bound) k le e = elim (Bool-cases (k == suc bound)) [
  | inl same ↦ let top : k ≡ suc bound = ground arith in rw top (ground arith)
  | inr less ↦ passes-le test bound k (ground arith) (ground arith)
]

-- The fields do not overlap, so the disjunction is a sum.
is_sum : ℕ → ℕ → Bool
is_sum color func = bit_or color (func * 8) == color + func * 8

sums : passes (λ color. passes (is_sum color) 15) 4 ≡ true
unfolding passes is_sum
sums = refl

pub card_code-sum :
    (color func : ℕ)
    → color ≤ 4
    → func ≤ 15
    → card_code (pos color) (pos func) ≡ pos (color + func * 8)
unfolding card_code low3 low4 is_sum
card_code-sum color func hc hf =
    let row = passes-le (λ c. passes (is_sum c) 15) 4 color hc sums in
    ground (arith, passes-le (is_sum color) 15 func hf row)

-- The assertion of `get_func` never fails.
pub get_func_total : (c : ℤ) → get_func c ≡ ok (low4 (shr3 c))
unfolding get_func
get_func_total (pos n) = ground arith
get_func_total (negsuc n) = ground arith
