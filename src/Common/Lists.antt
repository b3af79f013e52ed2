-- ===== src/Common/Lists.antt =====
-- Vectors and maps of the source as lists: sizes, indices and keys are native numbers.
use Prim.Native.Nat.{ℕ, zero, suc, ◌+◌, ◌<◌, ◌≤◌}
use mathlib.Core.Path.{◌≡◌, refl, ap}
use mathlib.Core.Logic.{◌≢◌}
use mathlib.Core.Bool.{Bool, true, false}
use mathlib.Core.List.{List, [], ◌∷◌, ◌++◌}
use mathlib.Core.Option.{Option, none, some}
use native.Mathlib.Omega.{arith}
use uno_server.Common.Tests.{◌==◌, if◌then◌else◌}

module _ {ℓ} {A : Type ℓ} where
  abbrev pub length : List A → ℕ
  length [] = 0
  length (x ∷ xs) = suc (length xs)

  abbrev pub get_elem? : List A → ℕ → Option A
  get_elem? [] i = none
  get_elem? (x ∷ xs) zero = some x
  get_elem? (x ∷ xs) (suc i) = get_elem? xs i

  -- `v.erase(v.begin() + i)`; the source calls it in range only.
  abbrev pub erase_at : ℕ → List A → List A
  erase_at i [] = []
  erase_at zero (x ∷ xs) = xs
  erase_at (suc i) (x ∷ xs) = x ∷ erase_at i xs

  -- `v[i] = a`, in range.
  abbrev pub set : List A → ℕ → A → List A
  set [] i v = []
  set (x ∷ xs) zero v = v ∷ xs
  set (x ∷ xs) (suc i) v = x ∷ set xs i v

  -- `v.back()` and what `v.pop_back()` leaves.
  abbrev pub pop_back : List A → Option (A × List A)
  pop_back [] = none
  pop_back (x ∷ xs) = elim (pop_back xs) [ none ↦ some (x, []) | some (y, ys) ↦ some (y, x ∷ ys) ]

  abbrev pub All {κ} : (A → Type κ) → List A → Type κ
  All P [] = Unit
  All P (x ∷ xs) = P x × All P xs

module _ {ℓ} {A : Type ℓ} where
  pub length-append : (xs ys : List A) → length (xs ++ ys) ≡ length xs + length ys
  length-append [] ys = omega arith
  length-append (x ∷ xs) ys = omega (arith, length-append xs ys)

  pub get_elem?_in_range :
      (xs : List A) (i : ℕ) → i < length xs → (a : A) × (get_elem? xs i ≡ some a)
  get_elem?_in_range [] i h = absurd (omega arith)
  get_elem?_in_range (x ∷ xs) zero h = (x, refl)
  get_elem?_in_range (x ∷ xs) (suc i) h = get_elem?_in_range xs i (omega arith)

  pub length-erase_at :
      (i : ℕ) (xs : List A) → i < length xs → length (erase_at i xs) + 1 ≡ length xs
  length-erase_at i [] h = absurd (omega arith)
  length-erase_at zero (x ∷ xs) h = omega arith
  length-erase_at (suc i) (x ∷ xs) h = omega (arith, length-erase_at i xs)

  -- Elements before the erased one keep their index, those behind it move down by one.
  pub get_elem?-erase_at_below :
      (i j : ℕ) (xs : List A) → j < i → get_elem? (erase_at i xs) j ≡ get_elem? xs j
  get_elem?-erase_at_below i j [] h = refl
  get_elem?-erase_at_below zero j (x ∷ xs) h = absurd (omega arith)
  get_elem?-erase_at_below (suc i) zero (x ∷ xs) h = refl
  get_elem?-erase_at_below (suc i) (suc j) (x ∷ xs) h =
      get_elem?-erase_at_below i j xs (omega arith)

  pub get_elem?-erase_at_above :
      (i j : ℕ) (xs : List A) → i ≤ j → get_elem? (erase_at i xs) j ≡ get_elem? xs (suc j)
  get_elem?-erase_at_above i j [] h = refl
  get_elem?-erase_at_above zero j (x ∷ xs) h = refl
  get_elem?-erase_at_above (suc i) zero (x ∷ xs) h = absurd (omega arith)
  get_elem?-erase_at_above (suc i) (suc j) (x ∷ xs) h =
      get_elem?-erase_at_above i j xs (omega arith)

module _ {ℓ κ} {A : Type ℓ} where
  pub All-map : {P Q : A → Type κ} (xs : List A) → ((x : A) → P x → Q x) → All P xs → All Q xs
  All-map [] f h = tt
  All-map (x ∷ xs) f h = (f x h.0, All-map xs f h.1)

  pub All-append_one :
      (P : A → Type κ) (xs : List A) (x : A) → All P xs → P x → All P (xs ++ x ∷ [])
  All-append_one P [] x h p = (p, tt)
  All-append_one P (y ∷ xs) x h p = (h.0, All-append_one P xs x h.1 p)

-- The first index that holds a number, as the search loops of the source find it.
abbrev pub index_of : ℕ → List ℕ → Option ℕ
index_of a [] = none
index_of a (x ∷ xs) =
    if x == a then some 0 else elim (index_of a xs) [ none ↦ none | some i ↦ some (suc i) ]

pub index_of_sound :
    (a : ℕ) (xs : List ℕ) (i : ℕ)
    → index_of a xs ≡ some i
    → (i < length xs) × (get_elem? xs i ≡ some a)
index_of_sound a [] i h = absurd (ground arith)
index_of_sound a (x ∷ xs) zero h = ground arith
index_of_sound a (x ∷ xs) (suc i) h = ground (arith, index_of_sound a xs i)

-- `std::unordered_map<int, V>` as an association list.
module _ {ℓ} {V : Type ℓ} where
  abbrev pub lookup : ℕ → List (ℕ × V) → Option V
  lookup k [] = none
  lookup k ((j, v) ∷ m) = if j == k then some v else lookup k m

  -- `m[k] = v`
  abbrev pub insert : ℕ → V → List (ℕ × V) → List (ℕ × V)
  insert k v [] = (k, v) ∷ []
  insert k v ((j, w) ∷ m) = if j == k then (j, v) ∷ m else (j, w) ∷ insert k v m

  -- `m.erase(k)`
  abbrev pub erase : ℕ → List (ℕ × V) → List (ℕ × V)
  erase k [] = []
  erase k ((j, w) ∷ m) = if j == k then m else (j, w) ∷ erase k m

  abbrev pub contains : ℕ → List (ℕ × V) → Bool
  contains k m = elim (lookup k m) [ none ↦ false | some _ ↦ true ]

  -- A loop that writes to every value of the map.
  abbrev pub map_values : (V → V) → List (ℕ × V) → List (ℕ × V)
  map_values f [] = []
  map_values f ((j, v) ∷ m) = (j, f v) ∷ map_values f m

  abbrev pub keys : List (ℕ × V) → List ℕ
  keys [] = []
  keys ((j, v) ∷ m) = j ∷ keys m

module _ {ℓ} {V : Type ℓ} where
  pub lookup-insert :
      (k j : ℕ) (v : V) (m : List (ℕ × V))
      → lookup j (insert k v m) ≡ (if k == j then some v else lookup j m)
  lookup-insert k j v [] = refl
  lookup-insert k j v ((i, w) ∷ m) = ground (arith, lookup-insert k j v m)

  pub lookup-erase_other : (k j : ℕ) (m : List (ℕ × V)) → k ≢ j → lookup j (erase k m) ≡ lookup j m
  lookup-erase_other k j [] ne = refl
  lookup-erase_other k j ((i, v) ∷ m) ne = ground (arith, lookup-erase_other k j m)

  pub length-insert :
      (k : ℕ) (v w : V) (m : List (ℕ × V)) → lookup k m ≡ some w → length (insert k v m) ≡ length m
  length-insert k v w [] h = absurd (ground arith)
  length-insert k v w ((i, u) ∷ m) h = ground (arith, length-insert k v w m)

  pub length-erase :
      (k : ℕ) (w : V) (m : List (ℕ × V)) → lookup k m ≡ some w → length (erase k m) + 1 ≡ length m
  length-erase k w [] h = absurd (ground arith)
  length-erase k w ((i, u) ∷ m) h = ground (arith, length-erase k w m)

  pub length-map_values : (f : V → V) (m : List (ℕ × V)) → length (map_values f m) ≡ length m
  length-map_values f [] = refl
  length-map_values f ((i, u) ∷ m) = ap suc (length-map_values f m)
