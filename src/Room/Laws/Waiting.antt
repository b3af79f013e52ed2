-- ===== src/Room/Laws/Waiting.antt =====
-- `game_update` of src/game/room.cpp while a player is waited for.

use uno_server.Common.{
  ℕ, ◌≡◌, ◌⊎◌, refl, sym, ap, ◌∙◌, true, none, some, List, [], ◌∷◌, lt→ltb, ℤ, pos, ◌-ℤ◌, leb_ℤ,
  length, All, ok, Bool-cases, inl, inr,
}
use uno_server.Room.Types.{Room, State, GameState}
use uno_server.Room.Random.{Random, IsRandom}
use uno_server.Room.Notify.{World}
use uno_server.Room.Cursor.{seat}
use uno_server.Room.Deal.{hand_of}
use uno_server.Room.Update.{
  ColorCount, cursor_in_range, set_timer, survey_hand, act_for, wait_tick, threshold, game_update,
  game_tick, update_state,
}
use uno_server.Room.Laws.Piles.{total, IsMember, member_some, hand_of-some}
use uno_server.Room.Laws.Table.{IsTable, seat_some}
use uno_server.Room.Laws.Check.{held-is_card, is_card-has_color}
use uno_server.Room.Laws.Dealing.{game_player_deal_card_in_turn}
use uno_server.Room.Laws.Auto.{Playable, Held, survey_hand_lem, All-Held, auto_play_lem}

-- What a tick leads to: a table with the same cards, or the end of the game with a winner.
abbrev pub GoesOnOrEnds : Room → Room → Type 0
GoesOnOrEnds r r' =
    (IsTable r' × ((x : ℤ) → total x r' ≡ total x r))
    ⊎ ((r'.state ≡ State.idle) × ((u : ℕ) × (r'.last_win ≡ some u) × IsMember u r.players))

timed-IsTable : {r : Room} (t : ℤ) → IsTable r → IsTable (record r { timer = t })
unfolding total
timed-IsTable now t = record {
  seated = t.seated;
  spot = t.spot;
  at_spot = t.at_spot;
  in_seat = t.in_seat;
  members = t.members;
  cards_only = t.cards_only;
  last_color = t.last_color;
  penalty = t.penalty;
  reportable = t.reportable;
  counted = t.counted;
}

hand_of-Held :
    {r : Room} (uid : ℕ)
    → IsTable r
    → IsMember uid r.players
    → All (Held (hand_of uid r.players)) (hand_of uid r.players)
hand_of-Held {r} uid t m =
    All-Held (hand_of uid r.players) (hand_of uid r.players) (λ c h. h)
      (λ c h. is_card-has_color c (held-is_card uid c t m h))

cursor_in_range_lem : {r : Room} → IsTable r → cursor_in_range r ≡ true
unfolding cursor_in_range
cursor_in_range_lem {r} t = rw (t.at_spot, cursor_in_range) (lt→ltb t.spot (length r.seq) t.in_seat)

module _ {R : Random} (laws : IsRandom R) where
  -- The server takes cards for a player without a playable one, and plays one otherwise.
  act_for_lem :
      (w : World) (uid : ℕ)
      → IsTable w.room
      → seat w.room ≡ ok uid
      → IsMember uid w.room.players
      → (w' : World) × (act_for R w uid (hand_of uid w.room.players) ≡ ok w')
        × GoesOnOrEnds w.room w'.room
  unfolding act_for
  act_for_lem w uid t s m =
      let hand = hand_of uid w.room.players in
      let (cards, k, e, p) =
        survey_hand_lem w.room hand hand [] (record { red = 0; yellow = 0; green = 0; blue = 0 })
          t.last_color t.penalty (hand_of-Held uid t m) tt in
      acts cards k e p
    where
      acts :
          (cards : List ℤ) (k : ColorCount)
          → survey_hand w.room
              (hand_of uid w.room.players)
              []
              (record { red = 0; yellow = 0; green = 0; blue = 0 })
            ≡ ok (cards, k)
          → All (Playable w.room (hand_of uid w.room.players)) cards
          → (w' : World) × (act_for R w uid (hand_of uid w.room.players) ≡ ok w')
            × GoesOnOrEnds w.room w'.room
      acts [] k e p =
          let (w', done, d) = game_player_deal_card_in_turn laws w uid 1 none t s in
          (w', rw e (rw done refl), inl (d.table, d.conserved))
      acts (c ∷ cs) k e p =
          let (w', a, color, uno, done, result) =
            auto_play_lem laws w uid (hand_of uid w.room.players) c cs k t s m p in
          (
            w',
            rw e done,
            elim result [
              | inl g ↦ inl (g.table, g.conserved)
              | inr g ↦ inr (g.idle, (uid, g.winner, m))
            ],
          )

  wait_tick_lem :
      (w : World) (now : ℤ)
      → IsTable w.room
      → (w' : World) × (wait_tick R now w ≡ ok w') × GoesOnOrEnds w.room w'.room
  unfolding wait_tick set_timer total seat
  wait_tick_lem w now t =
      let (uid, s, m) = seat_some t in
      let (p, found) = member_some uid w.room.players m in
      let w1 = set_timer (w.room.timer -ℤ pos 1) w in
      let t1 = timed-IsTable (w.room.timer -ℤ pos 1) t in
      elim (Bool-cases (leb_ℤ (w.room.timer -ℤ pos 1) (threshold now p))) [
        | inl due ↦
            let (w', done, result) = act_for_lem w1 uid t1 s m in
            let hand = hand_of-some uid p w.room.players found in
            (w', rw (cursor_in_range_lem t, s, found, due, sym hand) done, result)
        | inr early ↦ (w1, rw (cursor_in_range_lem t, s, found, early) refl, inl (t1, λ x. refl))
      ]

  -- While a player is waited for at a table, a tick returns, at whatever time. The room goes on as a
  -- table with the same cards, or the game ends with a member as winner.
  pub game_update-waiting :
      (w : World) (now : ℤ)
      → IsTable w.room
      → w.room.state ≡ State.playing
      → w.room.game_state ≡ GameState.wait_player
      → (w' : World) × (game_update R now w ≡ ok w') × GoesOnOrEnds w.room w'.room
  unfolding game_update game_tick update_state
  game_update-waiting w now t playing waiting =
      let (w', done, result) = wait_tick_lem w now t in
      (
        w',
        ap (λ (s : State). update_state R now s w) playing
            ∙ ap (λ (g : GameState). game_tick R now g w) waiting
            ∙ done,
        result,
      )
