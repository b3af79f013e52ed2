-- ===== src/Room/Laws/Auto.antt =====
-- The state `wait_player` of `game_update` of src/game/room.cpp: the server acts for a player.
use mathlib.Core.Path.{subst}
use uno_server.Common.{
  All-append_one, ℕ, zero, suc, ◌-◌, ◌<◌, ◌≡◌, ◌⊎◌, refl, Bool, true, false, not, some, List, [],
  ◌∷◌, ◌++◌, arith, ◌==◌, ==_self, if◌then◌else◌, ℤ, pos, ◌==ℤ◌, ==ℤ_iff, length, get_elem?,
  get_elem?_in_range, All, ok, Bool-cases, inl, inr,
}
use uno_server.Card.{color_all, color_red, color_yellow, color_blue, color_green, low3}
use uno_server.Room.Types.{Room}
use uno_server.Room.Random.{Random, IsRandom, count, random_select}
use uno_server.Room.Notify.{World}
use uno_server.Room.Cursor.{seat}
use uno_server.Room.Deal.{hand_of}
use uno_server.Room.Play.{is_chg_color}
use uno_server.Room.Update.{
  ColorCount, count_color, survey_hand, greedy_color, choose_color, choose_uno, auto_play,
}
use uno_server.Room.Laws.Piles.{IsMember}
use uno_server.Room.Laws.Table.{IsTable, has_color, is_draw_card}
use uno_server.Room.Laws.Legal.{Follows, MayPlay, color_of, get_color_ok, game_can_play_card_lem}
use uno_server.Room.Laws.Check.{Legal, held-is_card, is_card-has_color}
use uno_server.Room.Laws.PlayCall.{GoesOn, Wins, game_player_card_play_lem}

-- A card of the hand that may be played in turn.
abbrev pub Playable : Room → List ℤ → ℤ → Type 0
Playable r hand c = (0 < count c hand) × Follows r c

All-get_elem? {ℓ} :
    {A : Type ℓ} (P : A → Type 0) (xs : List A) (i : ℕ) (c : A)
    → All P xs
    → get_elem? xs i ≡ some c
    → P c
All-get_elem? P [] i c a h = absurd (ground arith)
All-get_elem? P (x ∷ xs) zero c a h = let e : x ≡ c = cc in subst P e (a.0)
All-get_elem? P (x ∷ xs) (suc i) c a h = All-get_elem? P xs i c a.1 h

-- Whether every number of a list has a colour and is in the hand.
abbrev pub Held : List ℤ → ℤ → Type 0
Held hand c = (0 < count c hand) × (has_color c ≡ true)

-- The survey returns, and keeps playable cards only.
pub survey_hand_lem :
    (r : Room) (hand rest cards : List ℤ) (k : ColorCount)
    → has_color r.last ≡ true
    → (0 < r.draw → is_draw_card r.last ≡ true)
    → All (Held hand) rest
    → All (Playable r hand) cards
    → (cards' : List ℤ) × (k' : ColorCount) × (survey_hand r rest cards k ≡ ok (cards', k'))
      × All (Playable r hand) cards'
unfolding survey_hand
survey_hand_lem r hand [] cards k hl hd a p = (cards, k, refl, p)
survey_hand_lem r hand (c ∷ rest) cards k hl hd a p =
    let (b, answer, iff) = game_can_play_card_lem r c false a.0.1 hl hd in
    let kept : All (Playable r hand) (if b then cards ++ c ∷ [] else cards) =
      survey_step r hand cards c b a.0.0 iff.0 p in
    let (cards', k', e, p') =
      survey_hand_lem r hand rest (if b then cards ++ c ∷ [] else cards) (count_color (low3 c) k) hl
        hd a.1 kept in
    (cards', k', rw (answer, get_color_ok c a.0.1) e, p')
  where
    survey_step :
        (r : Room) (hand cards : List ℤ) (c : ℤ) (b : Bool)
        → 0 < count c hand
        → (b ≡ true → Follows r c)
        → All (Playable r hand) cards
        → All (Playable r hand) (if b then cards ++ c ∷ [] else cards)
    survey_step r hand cards c true h f p = All-append_one (Playable r hand) cards c p (h, f refl)
    survey_step r hand cards c false h f p = p

-- Every number of a list is in the list.
pub All-Held :
    (hand rest : List ℤ)
    → ((c : ℤ) → 0 < count c rest → 0 < count c hand)
    → ((c : ℤ) → 0 < count c hand → has_color c ≡ true)
    → All (Held hand) rest
unfolding count
All-Held hand [] f g = tt
All-Held hand (c ∷ rest) f g =
    let own : 0 < count c hand = f c (rw ((==ℤ_iff c c).1 refl) (omega arith)) in
    ((own, g c own), All-Held hand rest (λ x h. f x (omega arith)) g)

random_select-at {ℓ} :
    {A : Type ℓ} (R : Random) (gen : ℕ) (c : A) (cs : List A) (a : A)
    → get_elem? (c ∷ cs) (R.uniform gen (length (c ∷ cs) - 1)).0 ≡ some a
    → random_select R gen (c ∷ cs) ≡ ok (a, (R.uniform gen (length (c ∷ cs) - 1)).1)
unfolding random_select
random_select-at R gen c cs a e =
    let full : (length (c ∷ cs) == 0) ≡ false = ground arith in rw full (rw e refl)

greedy_color-is_chg_color :
    (k : ColorCount)
    → not (greedy_color k == color_all) ≡ true
    → is_chg_color (pos (greedy_color k)) ≡ true
unfolding greedy_color is_chg_color ◌==ℤ◌
greedy_color-is_chg_color k h = ground arith

four :
    All
      (λ (v : ℕ). is_chg_color (pos v) ≡ true)
      (color_blue ∷ color_green ∷ color_yellow ∷ color_red ∷ [])
unfolding is_chg_color ◌==ℤ◌
four = (refl, (refl, (refl, (refl, tt))))

in_turn : (r : Room) (uid : ℕ) (c : ℤ) → Follows r c → MayPlay r c (not (uid == uid))
in_turn r uid c f = rw (==_self uid) f

module _ {R : Random} (laws : IsRandom R) where
  -- The choice by lot is an element of the list.
  pub random_select_lem {ℓ} :
      {A : Type ℓ} (P : A → Type 0) (gen : ℕ) (c : A) (cs : List A)
      → All P (c ∷ cs)
      → (a : A) × (gen' : ℕ) × (random_select R gen (c ∷ cs) ≡ ok (a, gen')) × P a
  random_select_lem P gen c cs p =
      let index = (R.uniform gen (length (c ∷ cs) - 1)).0 in
      let (a, e) =
        get_elem?_in_range (c ∷ cs) index
          (omega (arith, laws.uniform_le gen (length (c ∷ cs) - 1))) in
      (
        a,
        (R.uniform gen (length (c ∷ cs) - 1)).1,
        random_select-at R gen c cs a e,
        All-get_elem? P (c ∷ cs) index a p e,
      )

  -- For a black card the choice names a colour.
  choose_color_lem :
      (gen : ℕ) (c : ℤ) (k : ColorCount)
      → has_color c ≡ true
      → (color : ℕ) × (gen' : ℕ) × (choose_color R gen c k ≡ ok (color, gen'))
        × (color_of c ≡ color_all → is_chg_color (pos color) ≡ true)
  unfolding choose_color is_chg_color
  choose_color_lem gen c k hc = elim (Bool-cases (not (low3 c == color_all))) [
    | inl e ↦ (color_all, gen, rw (get_color_ok c hc) (rw e refl), λ z. absurd (ground arith))
    | inr e ↦ elim (Bool-cases (not (greedy_color k == color_all))) [
      | inl g ↦ (
        greedy_color k,
        gen,
        rw (get_color_ok c hc) (rw e (rw g refl)),
        λ z. greedy_color-is_chg_color k g,
      )
      | inr g ↦
          let (u, gen', done, ok_color) =
            random_select_lem (λ (v : ℕ). is_chg_color (pos v) ≡ true) gen color_blue
              (color_green ∷ color_yellow ∷ color_red ∷ []) four in
          (u, gen', rw (get_color_ok c hc) (rw e (rw g done)), λ z. ok_color)
    ]
  ]

  -- The server's play is legal, so it is accepted.
  pub auto_play_lem :
      (w : World) (uid : ℕ) (rest : List ℤ) (c : ℤ) (cs : List ℤ) (k : ColorCount)
      → IsTable w.room
      → seat w.room ≡ ok uid
      → IsMember uid w.room.players
      → All (Playable w.room (hand_of uid w.room.players)) (c ∷ cs)
      → (w' : World) × (a chosen : ℤ) × (uno : Bool) × (auto_play R w uid rest (c ∷ cs) k ≡ ok w')
        × (GoesOn w.room uid a chosen uno w'.room ⊎ Wins w.room uid a uno w'.room)
  unfolding auto_play
  auto_play_lem w uid rest c cs k t s m p =
      let hand = hand_of uid w.room.players in
      let (a, gen1, e1, (held, follows)) = random_select_lem (Playable w.room hand) w.gen c cs p in
      let hc = is_card-has_color a (held-is_card uid a t m held) in
      let (color, gen2, e2, named) = choose_color_lem gen1 a k hc in
      let uno = choose_uno R gen2 rest in
      let legal : Legal w.room uid a (pos color) = record {
        held = held;
        chosen = named;
        cur = uid;
        turn = s;
        may = in_turn w.room uid a follows;
      } in
      elim (game_player_card_play_lem laws (record w { gen = uno.1 }) uid a (pos color) uno.0 t m) [
        | inl (e, illegal) ↦ absurd (illegal legal)
        | inr (l, (w', done, result)) ↦
            (w', a, pos color, uno.0, rw e1 (rw e2 (rw done refl)), result)
      ]
