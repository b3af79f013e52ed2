-- ===== src/Room/Heap.antt =====
-- `game_card_heap_deal` of src/game/room.cpp.
use uno_server.Common.{none, some, [], ◌==◌, if◌then◌else◌, ℤ, negsuc, length, pop_back}
use uno_server.Room.Random.{Random}
use uno_server.Room.Notify.{World}

-- The shuffle writes `history` too, which is cleared next.
unfoldable pub refill : Random → World → World
refill R w =
    let r = w.room in
    let (cards, gen') = R.shuffle_cards w.gen r.history in
    record w { room = record r { heap = cards; history = [] }; gen = gen' }

-- Takes the last card; -1 if there is none.
unfoldable pub take_card : World → ℤ × World
take_card w =
    let r = w.room in
    elim (pop_back r.heap) [
      | none ↦ (negsuc 0, w)
      | some (c, heap) ↦ (c, record w { room = record r { heap = heap } })
    ]

unfoldable pub game_card_heap_deal : Random → World → ℤ × World
game_card_heap_deal R w = take_card (if length w.room.heap == 0 then refill R w else w)
