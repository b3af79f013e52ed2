-- ===== src/Room/Laws/Starting.antt =====
-- `game_start` of src/game/room.cpp.
use uno_server.Common.{
  ℕ, suc, ◌+◌, ◌*◌, ◌<◌, ◌≤◌, ◌≡◌, ◌⊎◌, refl, ap, ◌∙◌, true, false, ◌||◌, Option, none, some, List,
  [], ◌∷◌, ◌++◌, arith, ◌==◌, ==_self, leb, ℤ, pos, negsuc, negate, ◌==ℤ◌, length, length-append,
  get_elem?, index_of, index_of_sound, All, Outcome, ok, fault, ◌>>=◌, Bool-cases, inl, inr,
}
use uno_server.Card.Deck.{card_set}
use uno_server.Room.Types.{
  Room, State, GameState, player_start_card_count, dealer_start_card_ext_count,
  timer_dealing_interval,
}
use uno_server.Room.Random.{Random, IsRandom, count, random_select}
use uno_server.Room.Notify.{World}
use uno_server.Room.Leave.{is_playing}
use uno_server.Room.Start.{reset_game, choose_dealer, dealer_cursor, full_heap, set_up, game_start}
use uno_server.Room.Laws.Piles.{total, count-append}
use uno_server.Room.Laws.Ending.{hand_count-clear_players}
use uno_server.Room.Laws.Auto.{random_select_lem}

abbrev cards_of_set : Outcome (List ℤ) → List ℤ
cards_of_set (ok cards) = cards
cards_of_set (fault e) = []

-- The cards of the set.
pub set_cards : List ℤ
unfolding card_set
set_cards = cards_of_set card_set

pub card_set_ok : (card_set ≡ ok set_cards) × (length set_cards ≡ 116)
unfolding card_set set_cards
card_set_ok = (refl, refl)

-- A room in which `game_start` has just run.
pub record Started (r r' : Room) : Type 0 where
  pub playing : r'.state ≡ State.playing
  pub dealing : r'.game_state ≡ GameState.dealing
  pub first_round : r'.deal_turn ≡ 0
  pub turned : r'.direction ≡ negate r.last_direction
  pub spot : ℕ
  pub at_spot : r'.cursor ≡ pos spot
  pub in_seat : spot < length r'.seq
  pub dealer : ℕ
  pub is_dealer : r'.dealer ≡ some dealer
  pub seat_of_dealer : get_elem? r'.seq spot ≡ some dealer
  pub same_seats : r'.seq ≡ r.seq
  pub size : length r'.heap ≡ 348
  pub three_sets : (x : ℤ) → count x r'.heap ≡ 3 * count x set_cards
  pub all_cards : (x : ℤ) → total x r' ≡ 3 * count x set_cards

-- A player who has a seat.
abbrev pub Seated : List ℕ → ℕ → Type 0
Seated seq u = (i : ℕ) × (index_of u seq ≡ some i)

full_heap_lem :
    (cards : List ℤ)
    → (length (full_heap cards) ≡ 3 * length cards)
      × ((x : ℤ) → count x (full_heap cards) ≡ 3 * count x cards)
unfolding full_heap
full_heap_lem cards = (
  omega (arith, length-append cards (cards ++ cards), length-append cards cards),
  λ x. omega (arith, count-append x cards (cards ++ cards), count-append x cards cards),
)

Seated-suc : (x u : ℕ) (seq : List ℕ) → Seated seq u → Seated (x ∷ seq) u
Seated-suc x u seq (i, e) = elim (Bool-cases (x == u)) [
  | inl k ↦ (0, rw k refl)
  | inr k ↦ (suc i, rw (k, e) refl)
]

All-Seated_suc : (x : ℕ) (seq us : List ℕ) → All (Seated seq) us → All (Seated (x ∷ seq)) us
All-Seated_suc x seq [] a = tt
All-Seated_suc x seq (u ∷ us) a = (Seated-suc x u seq (a.0), All-Seated_suc x seq us a.1)

-- Every element of the seats is seated.
All-Seated : (seq : List ℕ) → All (Seated seq) seq
All-Seated [] = tt
All-Seated (x ∷ seq) = ((0, rw (==_self x) refl), All-Seated_suc x seq seq (All-Seated seq))

choose_by_lot :
    (R : Random) (w : World)
    → w.room.last_win ≡ none
    → choose_dealer R w ≡ random_select R w.gen w.room.seq
unfolding choose_dealer
choose_by_lot R w e =
    ap
      (λ (o : Option ℕ). elim o as (λ _. Outcome (ℕ × ℕ)) [
        | some winner ↦ ok (winner, w.gen)
        | none ↦ random_select R w.gen w.room.seq
      ])
      e

not_minus_one : (i : ℕ) → (pos i ==ℤ negsuc 0) ≡ false
unfolding ◌==ℤ◌
not_minus_one i = refl

turned_ok :
    (d : ℤ) → (d ≡ pos 1) ⊎ (d ≡ negsuc 0) → (negate d ==ℤ pos 1 || negate d ==ℤ negsuc 0) ≡ true
unfolding ◌==ℤ◌ negate
turned_ok d (inl e) = rw e refl
turned_ok d (inr e) = rw e refl

-- The heap is large enough for 49 players.
enough_cards :
    (n : ℕ)
    → n ≤ 49
    → leb (n * player_start_card_count + dealer_start_card_ext_count) (length (full_heap set_cards))
      ≡ true
enough_cards n h =
    let size = (full_heap_lem set_cards).0 in let set_size = card_set_ok.1 in ground arith

-- The world that `game_start` leaves.
abbrev started : Random → World → ℕ → ℕ → World
started R w dealer gen =
    let r = reset_game w.room in
    let cards = R.shuffle_cards gen (full_heap set_cards) in
    record w {
      room = record r {
        dealer = some dealer;
        cursor = dealer_cursor dealer r;
        direction = negate r.last_direction;
        heap = cards.0;
        state = State.playing;
        game_state = GameState.dealing;
        timer = pos timer_dealing_interval;
      };
      gen = cards.1;
    }

set_up-started :
    (R : Random) (w : World) (dealer gen i : ℕ)
    → dealer_cursor dealer (reset_game w.room) ≡ pos i
    → (w.room.curr_players == length w.room.seq) ≡ true
    → (negate w.room.last_direction ==ℤ pos 1 || negate w.room.last_direction ==ℤ negsuc 0) ≡ true
    → leb
        (w.room.curr_players * player_start_card_count + dealer_start_card_ext_count)
        (length (full_heap set_cards))
      ≡ true
    → set_up R w dealer gen ≡ ok (started R w dealer gen)
unfolding set_up reset_game
set_up-started R w dealer gen i at_dealer all_in direction enough =
    let fine : (dealer_cursor dealer (reset_game w.room) ==ℤ negsuc 0) ≡ false =
      rw at_dealer (not_minus_one i) in
    rw fine (rw direction (rw all_in (rw (card_set_ok.0) (rw enough refl))))

module _ {R : Random} (laws : IsRandom R) where
  random_seat :
      (gen : ℕ) (seq : List ℕ)
      → 0 < length seq
      → (u : ℕ) × (gen' : ℕ) × (random_select R gen seq ≡ ok (u, gen')) × Seated seq u
  random_seat gen [] h = absurd (omega arith)
  random_seat gen (x ∷ seq) h =
      random_select_lem laws (Seated (x ∷ seq)) gen x seq (All-Seated (x ∷ seq))

  choose_dealer_lem :
      (w : World)
      → 0 < length w.room.seq
      → (w.room.last_win ≡ none) ⊎ ((u : ℕ) × (w.room.last_win ≡ some u) × Seated w.room.seq u)
      → (u : ℕ) × (gen' : ℕ) × (choose_dealer R w ≡ ok (u, gen')) × Seated w.room.seq u
  unfolding choose_dealer
  choose_dealer_lem w h (inl e) =
      let (u, gen', done, s) = random_seat w.gen w.room.seq h in
      (u, gen', choose_by_lot R w e ∙ done, s)
  choose_dealer_lem w h (inr (u, e, s)) = (u, w.gen, rw (e, choose_dealer) refl, s)

  set_up_lem :
      (w : World) (dealer gen : ℕ)
      → Seated w.room.seq dealer
      → w.room.curr_players ≡ length w.room.seq
      → w.room.curr_players ≤ 49
      → (w.room.last_direction ≡ pos 1) ⊎ (w.room.last_direction ≡ negsuc 0)
      → (w' : World) × (set_up R w dealer gen ≡ ok w') × Started w.room w'.room
  unfolding reset_game dealer_cursor total count
  set_up_lem w dealer gen (i, e) seated few direction =
      let cards = R.shuffle_cards gen (full_heap set_cards) in
      let at_dealer : dealer_cursor dealer (reset_game w.room) ≡ pos i =
        rw (e, dealer_cursor) refl in
      let all_in : (w.room.curr_players == length w.room.seq) ≡ true =
        rw seated (==_self (length w.room.seq)) in
      let sets =
        λ (x : ℤ). laws.shuffle_count gen (full_heap set_cards) x ∙ (full_heap_lem set_cards).1 x in
      (
        started R w dealer gen,
        set_up-started R w dealer gen i at_dealer all_in (turned_ok w.room.last_direction direction)
            (enough_cards w.room.curr_players few),
        record {
          playing = refl;
          dealing = refl;
          first_round = refl;
          turned = refl;
          spot = i;
          at_spot = at_dealer;
          in_seat = (index_of_sound dealer w.room.seq i e).0;
          dealer = dealer;
          is_dealer = refl;
          seat_of_dealer = (index_of_sound dealer w.room.seq i e).1;
          same_seats = refl;
          size = omega (
            arith,
            laws.shuffle_length gen (full_heap set_cards),
            (full_heap_lem set_cards).0,
            card_set_ok.1,
          );
          three_sets = sets;
          all_cards = λ x. omega (arith, sets x, hand_count-clear_players x w.room.players);
        },
      )

  game_start-guards :
      (w : World)
      → w.room.state ≡ State.idle
      → 2 ≤ w.room.curr_players
      → game_start R w ≡ (choose_dealer R w >>= λ chosen. set_up R w chosen.0 chosen.1)
  unfolding game_start is_playing
  game_start-guards w idle some_players =
      let no_game : is_playing w.room.state ≡ false = ap is_playing idle in
      let two : leb 2 w.room.curr_players ≡ true = ground arith in rw no_game (rw two refl)

  -- In an idle room of two to 49 players with a seat each, whose last direction is 1 or -1 and whose
  -- last winner, if there is one, has a seat, `game_start` returns. The first round of the deal
  -- begins at the dealer's seat, in the other direction, with three card sets in the heap and no
  -- other card in the room.
  pub game_start_lem :
      (w : World)
      → w.room.state ≡ State.idle
      → 2 ≤ w.room.curr_players
      → w.room.curr_players ≤ 49
      → w.room.curr_players ≡ length w.room.seq
      → (w.room.last_direction ≡ pos 1) ⊎ (w.room.last_direction ≡ negsuc 0)
      → (w.room.last_win ≡ none) ⊎ ((u : ℕ) × (w.room.last_win ≡ some u) × Seated w.room.seq u)
      → (w' : World) × (game_start R w ≡ ok w') × Started w.room w'.room
  game_start_lem w idle some_players few seated direction winner =
      let (u, gen', chosen, s) = choose_dealer_lem w (omega arith) winner in
      let (w', done, result) = set_up_lem w u gen' s seated few direction in
      (w', game_start-guards w idle some_players ∙ rw chosen done, result)
