-- ===== src/Room/Laws/Draw.antt =====
-- `game_card_heap_deal` moves a card and loses none.

use uno_server.Common.{
  ℕ, ◌+◌, ◌<◌, ◌≡◌, refl, ◌∙◌, ◌⊎◌, inl, inr, none, some, List, [], ◌∷◌, ◌++◌, arith, ◌==◌, ℤ,
  negsuc, length, length-append, pop_back, Bool-cases, Option-cases,
}
use uno_server.Room.Types.{Room}
use uno_server.Room.Random.{Random, IsRandom, count}
use uno_server.Room.Notify.{World}
use uno_server.Room.Heap.{refill, take_card, game_card_heap_deal}
use uno_server.Room.Laws.Piles.{count-append, pop_back-none, pop_back-some}

-- How many cards can be dealt.
abbrev pub stock : Room → ℕ
stock r = length r.heap + length r.history

-- What a draw does: it changes heap and history only, and takes one card from them, or finds both
-- empty and returns -1.
pub record Draw (w : World) (c : ℤ) (w' : World) : Type 0 where
  pub frame :
      w'.room ≡ (let r = w.room in record r { heap = w'.room.heap; history = w'.room.history })
  pub sessions : w'.has_session ≡ w.has_session
  pub taken :
      ((0 < stock w.room)
        × (stock w'.room + 1 ≡ stock w.room)
        × ((x : ℤ)
            → count x w'.room.heap + count x w'.room.history + count x (c ∷ [])
              ≡ count x w.room.heap + count x w.room.history))
      ⊎ ((c ≡ negsuc 0)
          × (stock w.room ≡ 0)
          × (stock w'.room ≡ 0)
          × ((x : ℤ)
              → count x w'.room.heap + count x w'.room.history
                ≡ count x w.room.heap + count x w.room.history))

length_zero : (xs : List ℤ) → length xs ≡ 0 → xs ≡ []
length_zero [] h = refl
length_zero (x ∷ xs) h = absurd (omega arith)

pub length_snoc : (ys : List ℤ) (c : ℤ) → length (ys ++ c ∷ []) ≡ length ys + 1
length_snoc ys c = omega (arith, length-append ys (c ∷ []))

take_card-none : (w : World) → pop_back w.room.heap ≡ none → take_card w ≡ (negsuc 0, w)
unfolding take_card
take_card-none w e = rw (e, take_card)

take_card-some :
    (w : World) (c : ℤ) (heap : List ℤ)
    → pop_back w.room.heap ≡ some (c, heap)
    → take_card w ≡ (c, let r = w.room in record w { room = record r { heap = heap } })
unfolding take_card
take_card-some w c heap e = rw (e, take_card)

-- The draw from a heap that is empty only with an empty history.
take_card-Draw :
    (w : World)
    → ((length w.room.heap ≡ 0) → (length w.room.history ≡ 0))
    → Draw w (take_card w).0 (take_card w).1
take_card-Draw w h = elim (Option-cases (pop_back w.room.heap)) [
  | inl e ↦
      let nil = pop_back-none w.room.heap e in
      rw (take_card-none w e) (record {
        frame = refl;
        sessions = refl;
        taken = inr (refl, ground arith, ground arith, λ x. refl);
      })
  | inr ((c, heap), e) ↦
      let split = pop_back-some w.room.heap c heap e in
      rw (take_card-some w c heap e) (record {
        frame = refl;
        sessions = refl;
        taken = inl (
          rw split (omega (arith, length_snoc heap c)),
          rw split (omega (arith, length_snoc heap c)),
          λ x. rw split (omega (arith, count-append x heap (c ∷ []))),
        );
      })
]

module _ {R : Random} (laws : IsRandom R) where
  refill_lem :
      (w : World)
      → length w.room.heap ≡ 0
      → ((x : ℤ)
          → count x (refill R w).room.heap + count x (refill R w).room.history
            ≡ count x w.room.heap + count x w.room.history)
        × (stock (refill R w).room ≡ stock w.room)
  unfolding refill count
  refill_lem w h = (
    λ x. rw (length_zero w.room.heap h) (omega (arith, laws.shuffle_count w.gen w.room.history x)),
    omega (arith, laws.shuffle_length w.gen w.room.history),
  )

  -- `game_card_heap_deal` takes one card from heap and history together, or returns -1 when both are
  -- empty, and changes nothing else of the room.
  pub game_card_heap_deal-Draw :
      (w : World) → Draw w (game_card_heap_deal R w).0 (game_card_heap_deal R w).1
  unfolding game_card_heap_deal refill
  game_card_heap_deal-Draw w = elim (Bool-cases (length w.room.heap == 0)) [
    | inl e ↦ rw e (from_refill (ground arith) (take_card-Draw (refill R w) (λ h. refl)))
    | inr e ↦ rw e (take_card-Draw w (λ h. absurd (ground arith)))
  ]
    where
      from_refill :
          length w.room.heap ≡ 0
          → Draw (refill R w) (take_card (refill R w)).0 (take_card (refill R w)).1
          → Draw w (take_card (refill R w)).0 (take_card (refill R w)).1
      from_refill z d = record {
        frame = d.frame;
        sessions = d.sessions;
        taken = elim d.taken [
          | inl (some_left, less, same) ↦ inl (
            omega (arith, (refill_lem w z).1),
            omega (arith, (refill_lem w z).1),
            λ x. same x ∙ (refill_lem w z).0 x,
          )
          | inr (minus, empty, still, same) ↦
              inr (
                minus,
                omega (arith, (refill_lem w z).1),
                still,
                λ x. same x ∙ (refill_lem w z).0 x,
              )
        ];
      }
