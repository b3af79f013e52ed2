-- ===== src/Session/Laws/Removal.antt =====
-- `Ssmgr::on_disconnect` of src/core/ssmgr.cpp.
use uno_server.Common.{
  lookup-erase_other, ℕ, zero, suc, ◌+◌, ◌<◌, ◌≡◌, ◌≢◌, inl, inr, refl, ap, ◌∙◌, true, Option, none,
  some, List, [], ◌∷◌, arith, ◌==◌, ==_iff, if◌then◌else◌, length, get_elem?, set, pop_back,
  index_of, index_of_sound, lookup, Bool-cases,
}
use uno_server.Session.Ssmgr.{Ssmgr, swap_remove, drop_uid, on_disconnect}

-- How often a handle stands in a vector.
pub times : ℕ → List ℕ → ℕ
times a [] = 0
times a (x ∷ xs) = (if x == a then 1 else 0) + times a xs

-- The last element and the rest make up the vector.
record Split (xs : List ℕ) (y : ℕ) (ys : List ℕ) : Type 0 where
  popped : pop_back xs ≡ some (y, ys)
  size : length xs ≡ suc (length ys)
  all : (a : ℕ) → times a xs ≡ times a ys + (if y == a then 1 else 0)
  before : (i : ℕ) → i < length ys → get_elem? ys i ≡ get_elem? xs i
  last : get_elem? xs (length ys) ≡ some y

before_cons :
    (x y : ℕ) (xs ys : List ℕ)
    → Split xs y ys
    → (i : ℕ) → i < suc (length ys)
    → get_elem? (x ∷ ys) i ≡ get_elem? (x ∷ xs) i
before_cons x y xs ys s zero h = refl
before_cons x y xs ys s (suc i) h = s.before i (omega arith)

pop_back_cons :
    (x y : ℕ) (xs ys : List ℕ) → pop_back xs ≡ some (y, ys) → pop_back (x ∷ xs) ≡ some (y, x ∷ ys)
pop_back_cons x y xs ys e = rw e refl

pop_back-Split : (x : ℕ) (xs : List ℕ) → (y : ℕ) × (ys : List ℕ) × Split (x ∷ xs) y ys
unfolding times
pop_back-Split x [] = (
  x,
  [],
  record {
    popped = refl;
    size = refl;
    all = λ a. omega arith;
    before = λ i h. absurd (omega arith);
    last = refl;
  },
)
pop_back-Split x (z ∷ zs) =
    let (y, ys, s) = pop_back-Split z zs in
    (
      y,
      x ∷ ys,
      record {
        popped = pop_back_cons x y (z ∷ zs) ys s.popped;
        size = ap suc s.size;
        all = λ a. omega (arith, s.all a);
        before = before_cons x y (z ∷ zs) ys s;
        last = s.last;
      },
    )

times-set :
    (a i x y : ℕ) (ys : List ℕ)
    → get_elem? ys i ≡ some x
    → times a (set ys i y) + (if x == a then 1 else 0) ≡ times a ys + (if y == a then 1 else 0)
unfolding times
times-set a i x y [] h = absurd (ground arith)
times-set a zero x y (z ∷ zs) h = let same : z ≡ x = cc in rw same (omega arith)
times-set a (suc i) x y (z ∷ zs) h = omega (arith, times-set a i x y zs h)

set_beyond : (y : ℕ) (ys : List ℕ) → set ys (length ys) y ≡ ys
set_beyond y [] = refl
set_beyond y (z ∷ zs) = ap (λ (l : List ℕ). z ∷ l) (set_beyond y zs)

length-set : (i y : ℕ) (ys : List ℕ) → length (set ys i y) ≡ length ys
length-set i y [] = refl
length-set zero y (z ∷ zs) = refl
length-set (suc i) y (z ∷ zs) = ap suc (length-set i y zs)

swap_remove-popped :
    (i y : ℕ) (xs ys : List ℕ) → pop_back xs ≡ some (y, ys) → swap_remove i xs ≡ set ys i y
unfolding swap_remove
swap_remove-popped i y xs ys e = rw (swap_remove, e) refl

-- What is left without one of the elements.
swap_remove_lem :
    (i x : ℕ) (xs : List ℕ)
    → i < length xs
    → get_elem? xs i ≡ some x
    → (length (swap_remove i xs) + 1 ≡ length xs)
      × ((a : ℕ) → times a (swap_remove i xs) + (if x == a then 1 else 0) ≡ times a xs)
swap_remove_lem i x [] h e = absurd (omega arith)
swap_remove_lem i x (z ∷ zs) h e =
    let (y, ys, s) = pop_back-Split z zs in
    let out = swap_remove-popped i y (z ∷ zs) ys s.popped in
    elim (Bool-cases (i == length ys)) [
      | inl at ↦
          let here = (==_iff i (length ys)).0 at in
          let last = s.last in
          let its : y ≡ x = cc in
          let rest : swap_remove i (z ∷ zs) ≡ ys = out ∙ rw here (set_beyond y ys) in
          (
            rw rest (omega (arith, s.size)),
            λ a.
                rw rest
                  (omega (arith, s.all a, ap {B = ℕ} (λ (k : ℕ). if k == a then 1 else 0) its)),
          )
      | inr ne ↦
          let size = s.size in
          let inside : i < length ys = ground arith in
          let held = s.before i inside ∙ e in
          (
            rw out (omega (arith, length-set i y ys, size)),
            λ a. rw out (omega (arith, times-set a i x y ys held, s.all a)),
          )
    ]

others_kept :
    (o : Option ℕ) (u : ℕ) (users : List (ℕ × ℕ))
    → o ≢ some u
    → lookup u (drop_uid o users) ≡ lookup u users
unfolding drop_uid
others_kept none u users ne = refl
others_kept (some v) u users ne = lookup-erase_other v u users (λ e. ne (ap some e))

-- A lost connection of a session in the vector is told of. It takes one place of that session away
-- and no other session's, whatever the order; the sessions themselves stay as they were, and the
-- users of the others are found as before.
pub on_disconnect_lem :
    (m : Ssmgr) (sid i : ℕ)
    → index_of sid m.m_sessions ≡ some i
    → let r = on_disconnect sid m in
      (r.0 ≡ true)
      × (r.1.store ≡ m.store)
      × (length r.1.m_sessions + 1 ≡ length m.m_sessions)
      × ((a : ℕ) → times a r.1.m_sessions + (if sid == a then 1 else 0) ≡ times a m.m_sessions)
      × ((u : ℕ)
          → (m.store sid).uid ≢ some u
          → lookup u r.1.m_uid2session ≡ lookup u m.m_uid2session)
unfolding on_disconnect
on_disconnect_lem m sid i at =
    let (inside, held) = index_of_sound sid m.m_sessions i at in
    let (size, rest) = swap_remove_lem i sid m.m_sessions inside held in
    rw (on_disconnect, at)
      (refl, refl, size, rest, λ u ne. others_kept (m.store sid).uid u m.m_uid2session ne)
