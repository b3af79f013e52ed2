-- ===== src/Room/Random.antt =====
-- src/game/helper.h, and the random functions of the standard library that it and room.cpp call.
use uno_server.Common.{
  ℕ, ◌≤◌, ◌-◌, ◌+◌, ◌≡◌, not, ◌==◌, if◌then◌else◌, List, [], ◌∷◌, ℤ, ◌==ℤ◌, length, get_elem?,
  Outcome, ok, assert_that, in_range, ◌>>=◌, ◌>>◌,
}

-- The standard library's part. The number that every call takes and returns is the state of the
-- generators: of the static `std::mt19937`, and of `random()`.
pub record Random : Type 0 where
  -- `std::shuffle` at the two types that the source uses it at
  pub shuffle_cards : ℕ → List ℤ → List ℤ × ℕ
  pub shuffle_seats : ℕ → List ℕ → List ℕ × ℕ
  -- `std::uniform_int_distribution<size_t>(0, n)`
  pub uniform : ℕ → ℕ → ℕ × ℕ
  -- `random()`
  pub random : ℕ → ℕ × ℕ

-- How often a card lies in a pile.
unfoldable pub count : ℤ → List ℤ → ℕ
count c [] = 0
count c (x ∷ xs) = (if x ==ℤ c then 1 else 0) + count c xs

-- What the documentation of those functions says.
pub record IsRandom (R : Random) : Type 0 where
  pub shuffle_count :
      (gen : ℕ) (cards : List ℤ) (c : ℤ) → count c (R.shuffle_cards gen cards).0 ≡ count c cards
  pub shuffle_length :
      (gen : ℕ) (cards : List ℤ) → length (R.shuffle_cards gen cards).0 ≡ length cards
  pub uniform_le : (gen n : ℕ) → (R.uniform gen n).0 ≤ n

-- `helper::random_select`
unfoldable pub random_select {ℓ} : {A : Type ℓ} → Random → ℕ → List A → Outcome (A × ℕ)
random_select R gen arr = do
  assert_that (not (length arr == 0))
  let (index, gen') = R.uniform gen (length arr - 1)
  a ← in_range (get_elem? arr index)
  ok (a, gen')
