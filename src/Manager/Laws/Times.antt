-- ===== src/Manager/Laws/Times.antt =====
-- How often a player stands among the seats and in the map of a room of src/game/room.cpp.
use uno_server.Common.{
  ℕ, zero, suc, ◌+◌, ◌≤◌, ◌≡◌, refl, true, false, none, some, List, [], ◌∷◌, ◌++◌, arith, ◌==◌,
  ==_self, if◌then◌else◌, All, lookup, insert, erase, contains, map_values, keys, index_of,
  erase_at,
}

abbrev pub times : ℕ → List ℕ → ℕ
times u [] = 0
times u (x ∷ xs) = (if x == u then 1 else 0) + times u xs

pub times-append_one :
    (u x : ℕ) (xs : List ℕ) → times u (xs ++ x ∷ []) ≡ times u xs + (if x == u then 1 else 0)
times-append_one u x [] = ground arith
times-append_one u x (y ∷ xs) = omega (arith, times-append_one u x xs)

pub times-erase_at :
    (u x i : ℕ) (xs : List ℕ)
    → index_of x xs ≡ some i
    → times u (erase_at i xs) + (if x == u then 1 else 0) ≡ times u xs
times-erase_at u x i [] h = absurd (ground arith)
times-erase_at u x zero (y ∷ xs) h = ground arith
times-erase_at u x (suc i) (y ∷ xs) h = ground (arith, times-erase_at u x i xs)

pub times-missing : (x : ℕ) (xs : List ℕ) → index_of x xs ≡ none → times x xs ≡ 0
times-missing x [] h = refl
times-missing x (y ∷ xs) h = ground (arith, times-missing x xs)

-- What holds of whoever stands in a list holds of its elements.
pub All-times : {P : ℕ → Type 0} (xs : List ℕ) → ((u : ℕ) → 1 ≤ times u xs → P u) → All P xs
All-times [] f = tt
All-times (x ∷ xs) f =
    (f x (ground (arith, ==_self x)), All-times xs (λ u h. f u (omega (arith, h))))

module _ {ℓ} {V : Type ℓ} where
  pub contains-times : (u : ℕ) (m : List (ℕ × V)) → contains u m ≡ true → 1 ≤ times u (keys m)
  contains-times u [] h = absurd (ground arith)
  contains-times u ((j, v) ∷ m) h = ground (arith, contains-times u m)

  pub times-contains : (u : ℕ) (m : List (ℕ × V)) → 1 ≤ times u (keys m) → contains u m ≡ true
  times-contains u [] h = absurd (ground arith)
  times-contains u ((j, v) ∷ m) h = ground (arith, times-contains u m)

  pub times-absent : (u : ℕ) (m : List (ℕ × V)) → contains u m ≡ false → times u (keys m) ≡ 0
  times-absent u [] h = refl
  times-absent u ((j, v) ∷ m) h = ground (arith, times-absent u m)

  pub times-insert_new :
      (u k : ℕ) (v : V) (m : List (ℕ × V))
      → contains k m ≡ false
      → times u (keys (insert k v m)) ≡ times u (keys m) + (if k == u then 1 else 0)
  times-insert_new u k v [] h = ground arith
  times-insert_new u k v ((j, w) ∷ m) h = ground (arith, times-insert_new u k v m)

  pub times-insert_old :
      (u k : ℕ) (v w : V) (m : List (ℕ × V))
      → lookup k m ≡ some w
      → times u (keys (insert k v m)) ≡ times u (keys m)
  times-insert_old u k v w [] h = absurd (ground arith)
  times-insert_old u k v w ((j, x) ∷ m) h = ground (arith, times-insert_old u k v w m)

  pub times-map_values :
      (u : ℕ) (f : V → V) (m : List (ℕ × V)) → times u (keys (map_values f m)) ≡ times u (keys m)
  times-map_values u f [] = refl
  times-map_values u f ((j, v) ∷ m) = omega (arith, times-map_values u f m)

  pub times-erase :
      (u k : ℕ) (w : V) (m : List (ℕ × V))
      → lookup k m ≡ some w
      → times u (keys (erase k m)) + (if k == u then 1 else 0) ≡ times u (keys m)
  times-erase u k w [] h = absurd (ground arith)
  times-erase u k w ((j, v) ∷ m) h = ground (arith, times-erase u k w m)
