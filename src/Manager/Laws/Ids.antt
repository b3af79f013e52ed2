-- ===== src/Manager/Laws/Ids.antt =====
-- The choice of a room's id in `create_room_req` of src/game/room.cpp.
use uno_server.Common.{
  ℕ, zero, suc, ◌+◌, ◌≤◌, ◌<◌, ◌≡◌, ◌≢◌, ◌⊎◌, inl, inr, refl, sym, ◌∙◌, true, false, some, List, [],
  ◌∷◌, arith, ◌==◌, if◌then◌else◌, length, contains, Bool-cases,
}
use uno_server.Room.Types.{Room}
use uno_server.Manager.Types.{Server}
use uno_server.Manager.Create.{bump, pick_id, new_room_id}

-- A table without a key.
without : ℕ → List (ℕ × Room) → List (ℕ × Room)
without k [] = []
without k ((j, r) ∷ rooms) = let rest = without k rooms in if j == k then rest else (j, r) ∷ rest

length-without : (k : ℕ) (rooms : List (ℕ × Room)) → length (without k rooms) ≤ length rooms
unfolding without
length-without k [] = omega arith
length-without k ((j, r) ∷ rooms) = ground (arith, length-without k rooms)

length-without_lt :
    (k : ℕ) (rooms : List (ℕ × Room))
    → contains k rooms ≡ true
    → length (without k rooms) < length rooms
unfolding without
length-without_lt k [] h = absurd (ground arith)
length-without_lt k ((j, r) ∷ rooms) h =
    ground (arith, length-without k rooms, length-without_lt k rooms)

contains-without :
    (k i : ℕ) (rooms : List (ℕ × Room)) → i ≢ k → contains i (without k rooms) ≡ contains i rooms
unfolding without
contains-without k i [] ne = refl
contains-without k i ((j, r) ∷ rooms) ne = ground (arith, contains-without k i rooms ne)

-- A key that the next `fuel` ids from `next` on do not meet.
abbrev Far : ℕ → ℕ → ℕ → Type 0
Far fuel next k = ((k < next) × (next + fuel ≤ 2147483647 + k)) ⊎ (next + fuel ≤ k)

bump_le : (n : ℕ) → n ≤ 2147483647 → bump n ≤ 2147483647
unfolding bump
bump_le n h = ground arith

bump-Far : (fuel next k : ℕ) → next ≤ 2147483647 → Far (suc fuel) next k → Far fuel (bump next) k
unfolding bump
bump-Far fuel next k h (inl f) = elim (Bool-cases (next == 2147483647)) [
  | inl e ↦ rw e (inr (ground arith))
  | inr e ↦ rw e (inl (ground arith))
]
bump-Far fuel next k h (inr f) = elim (Bool-cases (next == 2147483647)) [
  | inl e ↦ rw e (inr (ground arith))
  | inr e ↦ rw e (inr (ground arith))
]

Far-ne : (fuel next k : ℕ) → Far (suc fuel) next k → next ≢ k
Far-ne fuel next k (inl f) = ground arith
Far-ne fuel next k (inr f) = ground arith

pick_id-without :
    (fuel next k : ℕ) (rooms : List (ℕ × Room))
    → next ≤ 2147483647
    → Far fuel next k
    → pick_id fuel (without k rooms) next ≡ pick_id fuel rooms next
unfolding pick_id
pick_id-without zero next k rooms h f = refl
pick_id-without (suc fuel) next k rooms h f =
    rw
      (
        contains-without k next rooms (Far-ne fuel next k f),
        pick_id-without fuel (bump next) k rooms (bump_le next h) (bump-Far fuel next k h f),
      )
      refl

-- What the loop finds: an id that no room has, and the next one to try.
pub record FreshId (rooms : List (ℕ × Room)) (id next : ℕ) : Type 0 where
  pub fresh : contains id rooms ≡ false
  pub id_fits : id ≤ 2147483647
  pub next_fits : next ≤ 2147483647
  pub next_positive : 1 ≤ next

bump_positive : (n : ℕ) → 1 ≤ bump n
unfolding bump
bump_positive n = ground arith

back_Far : (fuel next : ℕ) → suc fuel ≤ 2147483647 → Far fuel (bump next) next
unfolding bump
back_Far fuel next fits = elim (Bool-cases (next == 2147483647)) [
  | inl e ↦ rw e (inr (ground arith))
  | inr e ↦ rw e (inl (ground arith))
]

pick_id-fresh :
    (fuel : ℕ) (rooms : List (ℕ × Room)) (next id next' : ℕ)
    → pick_id fuel rooms next ≡ some (id, next')
    → contains id rooms ≡ false
unfolding pick_id
pick_id-fresh zero rooms next id next' e = absurd (ground arith)
pick_id-fresh (suc fuel) rooms next id next' e =
    ground (arith, pick_id-fresh fuel rooms (bump next) id next')

pick_id-FreshId :
    (fuel : ℕ) (rooms : List (ℕ × Room)) (next : ℕ)
    → next ≤ 2147483647
    → length rooms < fuel
    → fuel ≤ 2147483647
    → (id : ℕ) × ((next' : ℕ) × ((pick_id fuel rooms next ≡ some (id, next'))
          × FreshId rooms id next'))
unfolding pick_id
pick_id-FreshId zero rooms next h more fits = absurd (omega arith)
pick_id-FreshId (suc fuel) rooms next h more fits = elim (Bool-cases (contains next rooms)) [
  | inl taken ↦
      let (id, (next', (e, f))) =
        pick_id-FreshId fuel (without next rooms) (bump next) (bump_le next h)
          (omega (arith, length-without_lt next rooms taken)) (omega arith) in
      let e' =
        sym (pick_id-without fuel (bump next) next rooms (bump_le next h) (back_Far fuel next fits))
        ∙ e in
      (
        id,
        (
          next',
          (
            rw taken e',
            record {
              fresh = pick_id-fresh fuel rooms (bump next) id next' e';
              id_fits = f.id_fits;
              next_fits = f.next_fits;
              next_positive = f.next_positive;
            },
          ),
        ),
      )
  | inr free ↦ (
    next,
    (
      bump next,
      (
        rw free refl,
        record {
          fresh = free;
          id_fits = h;
          next_fits = bump_le next h;
          next_positive = bump_positive next;
        },
      ),
    ),
  )
]

-- With fewer rooms than there are ids, and a next id that is an `int`, the search for an id ends:
-- it finds one that no room has and that is an `int`, and the next id to try is one too and not 0.
pub new_room_id-FreshId :
    (s : Server)
    → s.m_next_room_id ≤ 2147483647
    → length s.m_rooms < 2147483647
    → (id : ℕ) × ((next : ℕ) × ((new_room_id s ≡ some (id, next)) × FreshId s.m_rooms id next))
unfolding new_room_id
new_room_id-FreshId s h few =
    pick_id-FreshId (suc (length s.m_rooms)) s.m_rooms s.m_next_room_id h (omega arith)
      (omega arith)
