-- ===== src/Room/Laws/Check.antt =====
-- The checks of `game_player_card_play` of src/game/room.cpp.
use uno_server.Common.{
  ℕ, zero, suc, ◌<◌, ◌≡◌, ◌⊎◌, refl, ◌∙◌, Bool, true, not, ◌&&◌, none, some, List, [], ◌∷◌, arith,
  ◌==◌, if◌then◌else◌, ℤ, ◌==ℤ◌, ==ℤ_iff, length, lookup, get_elem?, ok, Bool-cases, Option-cases,
  inl, inr,
}
use mathlib.Core.Path.{subst}
use uno_server.Card.{color_all}
use uno_server.Card.Laws.{get_func_total}
use uno_server.Room.Types.{Room, Player}
use uno_server.Room.Random.{count}
use uno_server.Room.Cursor.{seat}
use uno_server.Room.Rules.{game_can_play_card}
use uno_server.Room.Deal.{hand_of}
use uno_server.Room.Play.{Play, find_card, is_chg_color, check_play}
use uno_server.Room.Laws.Piles.{total, hand_count-lookup, hand_of-some, IsMember, member_some}
use uno_server.Room.Laws.Table.{IsTable, is_card, has_color, func_of, seat_some}
use uno_server.Room.Laws.Legal.{color_of, MayPlay, get_color_ok, game_can_play_card_lem}

-- The search finds the card at the index that it returns.
pub find_card-some :
    (c : ℤ) (xs : List ℤ) (i : ℕ) → find_card c xs ≡ some i → get_elem? xs i ≡ some c
unfolding find_card
find_card-some c [] i h = absurd (ground arith)
find_card-some c (x ∷ xs) i h = elim (Bool-cases (x ==ℤ c)) [
  | inl e ↦ let same = (==ℤ_iff x c).0 e in let z : i ≡ 0 = ground arith in rw (z, same) refl
  | inr e ↦ elim (Option-cases (find_card c xs)) [
    | inl n ↦ absurd (ground arith)
    | inr (k, s) ↦ let next : i ≡ suc k = ground arith in rw next (find_card-some c xs k s)
  ]
]

find_card-none : (c : ℤ) (xs : List ℤ) → find_card c xs ≡ none → count c xs ≡ 0
unfolding find_card count
find_card-none c [] h = refl
find_card-none c (x ∷ xs) h = elim (Bool-cases (x ==ℤ c)) [
  | inl e ↦ absurd (ground arith)
  | inr e ↦ elim (Option-cases (find_card c xs)) [
    | inl n ↦ rw e (omega (arith, find_card-none c xs n))
    | inr (k, s) ↦ absurd (ground arith)
  ]
]

count-get_elem? : (c : ℤ) (xs : List ℤ) (i : ℕ) → get_elem? xs i ≡ some c → 0 < count c xs
unfolding count
count-get_elem? c [] i h = absurd (ground arith)
count-get_elem? c (x ∷ xs) zero h =
    let e : x ≡ c = ground arith in rw ((==ℤ_iff x c).1 e) (omega arith)
count-get_elem? c (x ∷ xs) (suc i) h = omega (arith, count-get_elem? c xs i h)

-- At a table a number in a hand is a card.
pub held-is_card :
    {r : Room} (uid : ℕ) (c : ℤ)
    → IsTable r
    → IsMember uid r.players
    → 0 < count c (hand_of uid r.players)
    → is_card c ≡ true
unfolding total
held-is_card {r} uid c t m h = elim (Bool-cases (is_card c)) [
  | inl e ↦ e
  | inr e ↦
      let (p, found) = member_some uid r.players m in
      let some_left : 0 < count c p.rest = rw (hand_of-some uid p r.players found) at h in
      absurd (omega (arith, t.cards_only c e, hand_count-lookup uid p c r.players found))
]

pub is_card-has_color : (c : ℤ) → is_card c ≡ true → has_color c ≡ true
unfolding is_card
is_card-has_color c h = ground arith

-- A play that the rules allow: the player holds the card, names a colour for a black one, and may
-- play it in turn or ahead.
pub record Legal (r : Room) (uid : ℕ) (c chg_color : ℤ) : Type 0 where
  pub held : 0 < count c (hand_of uid r.players)
  pub chosen : color_of c ≡ color_all → is_chg_color chg_color ≡ true
  pub cur : ℕ
  pub turn : seat r ≡ ok cur
  pub may : MayPlay r c (not (uid == cur))

-- What the checks find out about the play of `c`.
pub record Checked (r : Room) (uid : ℕ) (c chg_color : ℤ) (p : Play) : Type 0 where
  pub legal : Legal r uid c chg_color
  pub at_index : get_elem? (hand_of uid r.players) p.index ≡ some c
  pub last_two : p.need_uno ≡ (length (hand_of uid r.players) == 2)
  pub its_func : p.func ≡ func_of c
  pub its_color : p.color ≡ color_of c
  pub out_of_turn : p.ahead ≡ not (uid == legal.cur)

-- The seat in turn is one.
may_at :
    {r : Room} {chg_color : ℤ} (uid : ℕ) (c : ℤ) (cur : ℕ)
    → seat r ≡ ok cur
    → Legal r uid c chg_color
    → MayPlay r c (not (uid == cur))
may_at {r} uid c cur turn l =
    let e : l.cur ≡ cur = cc (turn, l.turn) in
    subst (λ (u : ℕ). MayPlay r c (not (uid == u))) e l.may

abbrev pub Refused : Room → ℕ → ℤ → ℤ → Type 0
Refused r uid c chg_color = (check_play r uid c chg_color ≡ ok none) × (Legal r uid c chg_color → ⊥)

abbrev pub Accepted : Room → ℕ → ℤ → ℤ → Type 0
Accepted r uid c chg_color =
    (p : Play) × (check_play r uid c chg_color ≡ ok (some p)) × Checked r uid c chg_color p

-- The checks from the search on.
check_play-found :
    (r : Room) (uid : ℕ) (c chg_color : ℤ) (p : Player) (i cur : ℕ) (b : Bool)
    → lookup uid r.players ≡ some p
    → find_card c p.rest ≡ some i
    → has_color c ≡ true
    → seat r ≡ ok cur
    → game_can_play_card r c (not (uid == cur)) ≡ ok b
    → check_play r uid c chg_color
      ≡ ok (
          if (color_of c == color_all) && not (is_chg_color chg_color)
          then none
          else if b
          then some (record {
            index = i;
            need_uno = length p.rest == 2;
            func = func_of c;
            color = color_of c;
            ahead = not (uid == cur);
          })
          else none)
unfolding check_play func_of
check_play-found r uid c chg_color p i cur b found at_i hc turn e =
    elim (Bool-cases ((color_of c == color_all) && not (is_chg_color chg_color))) [
      | inl bad ↦ rw found (rw at_i (rw (get_func_total c, get_color_ok c hc) (rw bad refl)))
      | inr good ↦
          rw found
            (rw at_i (rw (get_func_total c, get_color_ok c hc) (rw good (rw turn (rw e refl)))))
    ]

check_play-missing :
    (r : Room) (uid : ℕ) (c chg_color : ℤ) (p : Player)
    → lookup uid r.players ≡ some p
    → find_card c p.rest ≡ none
    → check_play r uid c chg_color ≡ ok none
unfolding check_play
check_play-missing r uid c chg_color p found n = rw found (rw n refl)

check_held :
    {r : Room} (uid : ℕ) (c chg_color : ℤ) (p : Player) (i cur : ℕ)
    → IsTable r
    → IsMember uid r.players
    → lookup uid r.players ≡ some p
    → find_card c p.rest ≡ some i
    → seat r ≡ ok cur
    → Refused r uid c chg_color ⊎ Accepted r uid c chg_color
check_held {r} uid c chg_color p i cur t m found at_i turn =
    let at_index = find_card-some c p.rest i at_i in
    let hand = hand_of-some uid p r.players found in
    let held : 0 < count c (hand_of uid r.players) =
      rw hand (count-get_elem? c p.rest i at_index) in
    let hc = is_card-has_color c (held-is_card uid c t m held) in
    let (b, answer, iff) =
      game_can_play_card_lem r c (not (uid == cur)) hc t.last_color t.penalty in
    let step = check_play-found r uid c chg_color p i cur b found at_i hc turn answer in
    elim (Bool-cases ((color_of c == color_all) && not (is_chg_color chg_color))) [
      | inl bad ↦ inl (step ∙ rw bad refl, λ l. let k = l.chosen in absurd (ground arith))
      | inr good ↦ elim (Bool-cases b) [
        | inl fits ↦ inr (
          record {
            index = i;
            need_uno = length p.rest == 2;
            func = func_of c;
            color = color_of c;
            ahead = not (uid == cur);
          },
          step ∙ rw (good, fits) refl,
          record {
            legal = record {
              held = held;
              chosen = λ k. ground arith;
              cur = cur;
              turn = turn;
              may = iff.0 fits;
            };
            at_index = rw hand at_index;
            last_two = rw hand refl;
            its_func = refl;
            its_color = refl;
            out_of_turn = refl;
          },
        )
        | inr unfit ↦ inl (
          step ∙ rw (good, unfit) refl,
          λ l. absurd (cc (unfit, iff.1 (may_at uid c cur turn l))),
        )
      ]
    ]

-- At a table the checks return, and accept exactly the legal plays.
pub check_play_lem :
    {r : Room} (uid : ℕ) (c chg_color : ℤ)
    → IsTable r
    → IsMember uid r.players
    → Refused r uid c chg_color ⊎ Accepted r uid c chg_color
check_play_lem {r} uid c chg_color t m =
    let (p, found) = member_some uid r.players m in
    let (cur, turn, mc) = seat_some t in
    elim (Option-cases (find_card c p.rest)) [
      | inl n ↦ inl (
        check_play-missing r uid c chg_color p found n,
        λ l.
            let empty = find_card-none c p.rest n in
            let held : 0 < count c p.rest = rw (hand_of-some uid p r.players found) at l.held in
            absurd (omega arith),
      )
      | inr (i, s) ↦ check_held uid c chg_color p i cur t m found s turn
    ]
