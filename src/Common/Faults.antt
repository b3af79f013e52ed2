-- ===== src/Common/Faults.antt =====
-- What a call does beside its result: it returns, or it stops the process. The server is built
-- without NDEBUG, so a failed `assert` aborts; an index outside a vector is undefined behaviour; a
-- loop may run forever.

use mathlib.Core.Bool.{Bool, true, false}
use mathlib.Core.Option.{Option, none, some}

pub data Fault : Type 0 where
  assertion out_of_bounds endless : Fault

pub data Outcome {ℓ} (A : Type ℓ) : Type ℓ where
  ok : A → Outcome A
  fault : Fault → Outcome A

infixl 5 ◌>>=◌ ◌>>◌
abbrev pub ◌>>=◌ {ℓ κ} : {A : Type ℓ} {B : Type κ} → Outcome A → (A → Outcome B) → Outcome B
ok a >>= f = f a
fault e >>= f = fault e

abbrev pub ◌>>◌ {ℓ} : {B : Type ℓ} → Outcome (Unit {0}) → Outcome B → Outcome B
m >> k = m >>= λ _. k

-- `assert(b)`
abbrev pub assert_that : Bool → Outcome (Unit {0})
assert_that true = ok tt
assert_that false = fault assertion

-- `assert(it != m.end())`
abbrev pub assert_some {ℓ} : {A : Type ℓ} → Option A → Outcome A
assert_some none = fault assertion
assert_some (some a) = ok a

-- `v[i]`
abbrev pub in_range {ℓ} : {A : Type ℓ} → Option A → Outcome A
in_range none = fault out_of_bounds
in_range (some a) = ok a
