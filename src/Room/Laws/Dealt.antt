-- ===== src/Room/Laws/Dealt.antt =====
-- The loop of `game_player_deal_card` moves cards and loses none.
use Prim.Native.Nat.{min}
use mathlib.Core.List.{append-nil, append_assoc}
use uno_server.Common.{
  ℕ, zero, suc, ◌+◌, ◌<◌, ◌≡◌, refl, sym, ap, ◌∙◌, inl, inr, true, false, List, [], ◌∷◌, ◌++◌,
  arith, ℤ, negsuc, length, keys, ==ℤ_iff, Bool-cases,
}
use uno_server.Room.Types.{Room, PlayerMap}
use uno_server.Room.Random.{Random, IsRandom, count}
use uno_server.Room.Notify.{World}
use uno_server.Room.Heap.{game_card_heap_deal}
use uno_server.Room.Deal.{hand_of, give, is_positive, deal_cards}
use uno_server.Room.Laws.Piles.{
  count-append, total, IsMember, hand_of-set_rest, keys-set_rest, hand_count-set_rest,
  IsMember-of_keys,
}
use uno_server.Room.Laws.Draw.{stock, Draw, game_card_heap_deal-Draw}

-- A room of which heap, history and players may have changed, and nothing else.
abbrev pub Framed : Room → Room → Type 0
Framed r r' = r' ≡ record r { heap = r'.heap; history = r'.history; players = r'.players }

pub Framed-trans : (a b c : Room) → Framed a b → Framed b c → Framed a c
Framed-trans a b c p q =
    q ∙ ap (λ (z : Room). record z { heap = c.heap; history = c.history; players = c.players }) p

Draw-Framed : {w : World} {c : ℤ} {w' : World} → Draw w c w' → Framed w.room w'.room
Draw-Framed {w} {c} {w'} d =
    let r = w.room in
    d.frame
    ∙ ap
        (λ (ps : PlayerMap). record r {
          heap = w'.room.heap;
          history = w'.room.history;
          players = ps;
        })
        (sym (ap (λ (z : Room). z.players) d.frame))

-- What dealing `n` cards to a member does: it changes heap, history and that hand only, the new
-- cards of the hand are the ones reported, there are `n` of them or as many as are left, and no
-- card is lost.
pub record Dealt (w : World) (n uid : ℕ) (arr out : List ℤ) (w' : World) : Type 0 where
  pub frame : Framed w.room w'.room
  pub sessions : w'.has_session ≡ w.has_session
  pub new : List ℤ
  pub reported : out ≡ arr ++ new
  pub hand : hand_of uid w'.room.players ≡ hand_of uid w.room.players ++ new
  pub size : length new ≡ min n (stock w.room)
  pub left : stock w'.room + length new ≡ stock w.room
  pub same_keys : keys w'.room.players ≡ keys w.room.players
  pub conserved : (x : ℤ) → total x w'.room ≡ total x w.room

-- A card that is no positive number lies nowhere in the stock.
abbrev pub Positive : Room → Type 0
Positive r = (x : ℤ) → is_positive x ≡ false → count x r.heap + count x r.history ≡ 0

count_self : (c : ℤ) → count c (c ∷ []) ≡ 1
unfolding count
count_self c = rw ((==ℤ_iff c c).1 refl)

-- One card more in a hand.
give_lem :
    (uid : ℕ) (c : ℤ) (w : World)
    → IsMember uid w.room.players
    → (hand_of uid (give uid c w).room.players ≡ hand_of uid w.room.players ++ c ∷ [])
      × (keys (give uid c w).room.players ≡ keys w.room.players)
      × ((x : ℤ) → total x (give uid c w).room ≡ total x w.room + count x (c ∷ []))
unfolding give total
give_lem uid c w m = (
  hand_of-set_rest uid (hand_of uid w.room.players ++ c ∷ []) w.room.players m,
  keys-set_rest uid (hand_of uid w.room.players ++ c ∷ []) w.room.players m,
  λ x. omega (
    arith,
    hand_count-set_rest uid (hand_of uid w.room.players ++ c ∷ []) x w.room.players m,
    count-append x (hand_of uid w.room.players) (c ∷ []),
  ),
)

minus_one : is_positive (negsuc 0) ≡ false
unfolding is_positive
minus_one = refl

-- Totals over a draw.
same_total :
    (x : ℤ) (r' r : Room)
    → count x r'.heap + count x r'.history ≡ count x r.heap + count x r.history
    → r'.players ≡ r.players
    → total x r' ≡ total x r
unfolding total
same_total x r' r h e = rw e (omega arith)

drawn_total :
    (x c : ℤ) (w w1 : World)
    → w1.room.players ≡ w.room.players
    → count x w1.room.heap + count x w1.room.history + count x (c ∷ [])
      ≡ count x w.room.heap + count x w.room.history
    → total x w1.room + count x (c ∷ []) ≡ total x w.room
unfolding total
drawn_total x c w w1 e h = rw e (omega arith)

-- A positive card was taken from the stock.
Draw-taken :
    {w : World} {c : ℤ} {w1 : World}
    → is_positive c ≡ true
    → Draw w c w1
    → (0 < stock w.room)
      × (stock w1.room + 1 ≡ stock w.room)
      × ((x : ℤ)
          → count x w1.room.heap + count x w1.room.history + count x (c ∷ [])
            ≡ count x w.room.heap + count x w.room.history)
Draw-taken {w} {c} {w1} p d = elim d.taken [
  | inl t ↦ t
  | inr t ↦ absurd (cc (ap is_positive t.0, minus_one))
]

-- Another result says that the stock is empty, if it holds positive cards only.
Draw-empty :
    {w : World} {c : ℤ} {w1 : World}
    → is_positive c ≡ false
    → Positive w.room
    → Draw w c w1
    → (stock w.room ≡ 0)
      × (stock w1.room ≡ 0)
      × ((x : ℤ)
          → count x w1.room.heap + count x w1.room.history
            ≡ count x w.room.heap + count x w.room.history)
Draw-empty {w} {c} {w1} p h d = elim d.taken [
  | inl t ↦ absurd (omega (arith, h c p, t.2 c, count_self c))
  | inr t ↦ (t.1, t.2, t.3)
]

Draw-players : {w : World} {c : ℤ} {w1 : World} → Draw w c w1 → w1.room.players ≡ w.room.players
Draw-players d = ap (λ (z : Room). z.players) d.frame

-- A draw of a positive card, a gift, and the rest of the deal.
Dealt-next :
    (n uid : ℕ) (arr out : List ℤ) (w : World) (c : ℤ) (w1 w' : World)
    → IsMember uid w1.room.players
    → is_positive c ≡ true
    → Draw w c w1
    → Dealt (give uid c w1) n uid (arr ++ c ∷ []) out w'
    → Dealt w (suc n) uid arr out w'
unfolding give
Dealt-next n uid arr out w c w1 w' m p d rest =
    let (some_left, less, same) = Draw-taken p d in
    let (hand, ks, more) = give_lem uid c w1 m in
    let players = Draw-players d in
    record {
      frame =
          Framed-trans w.room w1.room w'.room (Draw-Framed d)
            (Framed-trans w1.room (give uid c w1).room w'.room refl rest.frame);
      sessions = rest.sessions ∙ d.sessions;
      new = c ∷ rest.new;
      reported = rest.reported ∙ append_assoc arr (c ∷ []) rest.new;
      hand =
          rest.hand
          ∙ ap (λ l. l ++ rest.new) hand
          ∙ append_assoc (hand_of uid w1.room.players) (c ∷ []) rest.new
          ∙ ap (λ ps. hand_of uid ps ++ c ∷ rest.new) players;
      size = omega (arith, rest.size);
      left = omega (arith, rest.left);
      same_keys = rest.same_keys ∙ ks ∙ ap keys players;
      conserved = λ x. rest.conserved x ∙ more x ∙ drawn_total x c w w1 players (same x);
    }

-- A draw from an empty stock, and the rest of the deal.
Dealt-none :
    (n uid : ℕ) (arr out : List ℤ) (w : World) (c : ℤ) (w1 w' : World)
    → is_positive c ≡ false
    → Positive w.room
    → Draw w c w1
    → Dealt w1 n uid arr out w'
    → Dealt w (suc n) uid arr out w'
Dealt-none n uid arr out w c w1 w' p h d rest =
    let (empty, still, same) = Draw-empty p h d in
    let players = Draw-players d in
    record {
      frame = Framed-trans w.room w1.room w'.room (Draw-Framed d) rest.frame;
      sessions = rest.sessions ∙ d.sessions;
      new = rest.new;
      reported = rest.reported;
      hand = rest.hand ∙ ap (λ ps. hand_of uid ps ++ rest.new) players;
      size = omega (arith, rest.size);
      left = omega (arith, rest.left);
      same_keys = rest.same_keys ∙ ap keys players;
      conserved = λ x. rest.conserved x ∙ same_total x w1.room w.room (same x) players;
    }

Positive-next :
    {w : World} {c : ℤ} {w1 : World} (uid : ℕ)
    → is_positive c ≡ true
    → Positive w.room
    → Draw w c w1
    → Positive (give uid c w1).room
unfolding give
Positive-next uid p h d x q = omega (arith, (Draw-taken p d).2 x, h x q)

Positive-none :
    {w : World} {c : ℤ} {w1 : World}
    → is_positive c ≡ false
    → Positive w.room
    → Draw w c w1
    → Positive w1.room
Positive-none p h d x q = omega (arith, (Draw-empty p h d).2 x, h x q)

module _ {R : Random} (laws : IsRandom R) where
  -- In a room whose heap and history hold positive numbers only, the loop gives a member as many cards
  -- as it is asked for, or all that is left in heap and history, and loses no card.
  pub deal_cards-Dealt :
      (n uid : ℕ) (arr : List ℤ) (w : World)
      → IsMember uid w.room.players
      → Positive w.room
      → Dealt w n uid arr (deal_cards R n uid arr w).0 (deal_cards R n uid arr w).1
  unfolding deal_cards
  deal_cards-Dealt zero uid arr w m h = record {
    frame = refl;
    sessions = refl;
    new = [];
    reported = sym (append-nil arr);
    hand = sym (append-nil (hand_of uid w.room.players));
    size = omega arith;
    left = omega arith;
    same_keys = refl;
    conserved = λ x. refl;
  }
  deal_cards-Dealt (suc n) uid arr w m h =
      let c = (game_card_heap_deal R w).0 in
      let w1 = (game_card_heap_deal R w).1 in
      let d : Draw w c w1 = game_card_heap_deal-Draw laws w in
      let m1 : IsMember uid w1.room.players = rw (Draw-players d) m in
      let m2 =
        IsMember-of_keys uid w1.room.players (give uid c w1).room.players
          (sym (give_lem uid c w1 m1).1) m1 in
      elim (Bool-cases (is_positive c)) [
        | inl p ↦
            rw (p, deal_cards)
              (Dealt-next n uid arr _ w c w1 _ m1 p d (
                deal_cards-Dealt n uid (arr ++ c ∷ []) (give uid c w1) m2
                  (Positive-next uid p h d)))
        | inr p ↦
            rw (p, deal_cards)
              (Dealt-none n uid arr _ w c w1 _ p h d
                (deal_cards-Dealt n uid arr w1 m1 (Positive-none p h d)))
      ]
