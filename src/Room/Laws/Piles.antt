-- ===== src/Room/Laws/Piles.antt =====
-- How often a card lies in the heap, the history and the hands of a room.
use uno_server.Common.{
  ℕ, zero, suc, ◌+◌, ◌≤◌, ◌≡◌, refl, sym, inl, inr, true, none, some, List, [], ◌∷◌, ◌++◌, arith,
  if◌then◌else◌, ℤ, ◌==ℤ◌, pop_back, erase_at, lookup, insert, keys, contains, lookup-insert,
  get_elem?, Option-cases,
}
use uno_server.Room.Types.{Room, Player, PlayerMap, set_rest}
use uno_server.Room.Random.{count}
use uno_server.Room.Deal.{hand_of}

pub count-append : (c : ℤ) (xs ys : List ℤ) → count c (xs ++ ys) ≡ count c xs + count c ys
unfolding count
count-append c [] ys = omega arith
count-append c (x ∷ xs) ys = omega (arith, count-append c xs ys)

pub pop_back-none : (xs : List ℤ) → pop_back xs ≡ none → xs ≡ []
pop_back-none [] h = refl
pop_back-none (x ∷ xs) h = ground arith

-- The last card of a vector and the rest.
pub pop_back-some :
    (xs : List ℤ) (y : ℤ) (ys : List ℤ) → pop_back xs ≡ some (y, ys) → xs ≡ ys ++ y ∷ []
pop_back-some [] y ys h = absurd (ground arith)
pop_back-some (x ∷ xs) y ys h = elim (Option-cases (pop_back xs)) [
  | inl e ↦ let nil = pop_back-none xs e in ground arith
  | inr ((z, zs), e) ↦ let ih = pop_back-some xs z zs e in ground arith
]

pub count-erase_at :
    (c x : ℤ) (i : ℕ) (xs : List ℤ)
    → get_elem? xs i ≡ some x
    → count c (erase_at i xs) + (if x ==ℤ c then 1 else 0) ≡ count c xs
unfolding count
count-erase_at c x i [] h = absurd (ground arith)
count-erase_at c x zero (y ∷ xs) h = ground arith
count-erase_at c x (suc i) (y ∷ xs) h = omega (arith, count-erase_at c x i xs h)

-- The hands together.
unfoldable pub hand_count : ℤ → PlayerMap → ℕ
hand_count c [] = 0
hand_count c ((uid, p) ∷ ps) = count c p.rest + hand_count c ps

-- All cards of the room.
unfoldable pub total : ℤ → Room → ℕ
unfolding hand_count
total c r = count c r.heap + count c r.history + hand_count c r.players

-- A player who is in the room.
abbrev pub IsMember : ℕ → PlayerMap → Type 0
IsMember uid players = contains uid players ≡ true

insert_hand :
    (uid : ℕ) (q p : Player) (c : ℤ) (players : PlayerMap)
    → lookup uid players ≡ some p
    → hand_count c (insert uid q players) + count c p.rest ≡ hand_count c players + count c q.rest
unfolding hand_count
insert_hand uid q p c [] h = absurd (ground arith)
insert_hand uid q p c ((j, s) ∷ players) h = ground (arith, insert_hand uid q p c players)

pub hand_count-lookup :
    (uid : ℕ) (p : Player) (c : ℤ) (players : PlayerMap)
    → lookup uid players ≡ some p
    → count c p.rest ≤ hand_count c players
unfolding hand_count
hand_count-lookup uid p c [] h = absurd (ground arith)
hand_count-lookup uid p c ((j, s) ∷ players) h = ground (arith, hand_count-lookup uid p c players)

pub keys-insert :
    (uid : ℕ) (q p : Player) (players : PlayerMap)
    → lookup uid players ≡ some p
    → keys (insert uid q players) ≡ keys players
keys-insert uid q p [] h = absurd (ground arith)
keys-insert uid q p ((j, s) ∷ players) h = ground (arith, keys-insert uid q p players)

-- Who is in the map depends on its keys.
pub IsMember-of_keys :
    (uid : ℕ) (m n : PlayerMap) → keys m ≡ keys n → IsMember uid m → IsMember uid n
IsMember-of_keys uid [] n e h = absurd (ground arith)
IsMember-of_keys uid ((j, s) ∷ m) [] e h = absurd (ground arith)
IsMember-of_keys uid ((j, s) ∷ m) ((i, t) ∷ n) e h = ground (arith, IsMember-of_keys uid m n)

pub set_rest-some :
    (uid : ℕ) (rest : List ℤ) (p : Player) (players : PlayerMap)
    → lookup uid players ≡ some p
    → set_rest uid rest players ≡ insert uid (record p { rest = rest }) players
unfolding set_rest
set_rest-some uid rest p players e = rw (e, set_rest)

pub hand_of-some :
    (uid : ℕ) (p : Player) (players : PlayerMap)
    → lookup uid players ≡ some p
    → hand_of uid players ≡ p.rest
unfolding hand_of
hand_of-some uid p players e = rw (e, hand_of)

-- A member has an entry.
pub member_some :
    (uid : ℕ) (players : PlayerMap)
    → IsMember uid players
    → (p : Player) × (lookup uid players ≡ some p)
member_some uid players h = elim (Option-cases (lookup uid players)) [
  | inl e ↦ absurd (ground arith)
  | inr (p, e) ↦ (p, e)
]

-- Writing the hand of a member changes the hands together by what it changes there.
pub hand_count-set_rest :
    (uid : ℕ) (rest : List ℤ) (c : ℤ) (players : PlayerMap)
    → IsMember uid players
    → hand_count c (set_rest uid rest players) + count c (hand_of uid players)
      ≡ hand_count c players + count c rest
hand_count-set_rest uid rest c players h =
    let (p, e) = member_some uid players h in
    rw (set_rest-some uid rest p players e, hand_of-some uid p players e)
      (insert_hand uid (record p { rest = rest }) p c players e)

pub keys-set_rest :
    (uid : ℕ) (rest : List ℤ) (players : PlayerMap)
    → IsMember uid players
    → keys (set_rest uid rest players) ≡ keys players
keys-set_rest uid rest players h =
    let (p, e) = member_some uid players h in
    rw (set_rest-some uid rest p players e) (keys-insert uid (record p { rest = rest }) p players e)

pub hand_of-set_rest :
    (uid : ℕ) (rest : List ℤ) (players : PlayerMap)
    → IsMember uid players
    → hand_of uid (set_rest uid rest players) ≡ rest
unfolding hand_of
hand_of-set_rest uid rest players h =
    let (p, e) = member_some uid players h in
    rw (set_rest-some uid rest p players e)
      (ground (arith, lookup-insert uid uid (record p { rest = rest }) players))

pub IsMember-set_rest :
    (uid u : ℕ) (rest : List ℤ) (players : PlayerMap)
    → IsMember uid players
    → IsMember u players
    → IsMember u (set_rest uid rest players)
IsMember-set_rest uid u rest players h m =
    IsMember-of_keys u players (set_rest uid rest players) (sym (keys-set_rest uid rest players h))
      m
