-- ===== src/Room/Laws/Legal.antt =====
-- `game_can_play_card` of src/game/room.cpp and the rules of the game.
use uno_server.Common.{
  ℕ, ◌<◌, ◌≡◌, ◌≢◌, ◌↔◌, ◌⊎◌, refl, sym, Bool, true, false, not, ◌&&◌, ◌||◌, arith, ◌==◌, ltb,
  if◌then◌else◌, ℤ, pos, ◌==ℤ◌, ==ℤ_iff, Outcome, ok, Bool-cases, inl, inr,
}
use uno_server.Card.{color_all, func_draw2, func_draw4, low3, get_color}
use uno_server.Card.Laws.{get_func_total}
use uno_server.Room.Types.{Room}
use uno_server.Room.Rules.{can_follow_draw, can_follow, game_can_play_card}
use uno_server.Room.Laws.Table.{has_color, func_of, is_draw_card}

-- The colour of a card.
abbrev pub color_of : ℤ → ℕ
color_of c = low3 c

-- A card that may follow the last one in turn, by the rules of the game.
pub data Follows (r : Room) (c : ℤ) : Type 0 where
  same_card : c ≡ r.last → Follows r c
  same_color : r.draw ≡ 0 → color_of c ≡ color_of r.last → Follows r c
  same_func : r.draw ≡ 0 → func_of c ≡ func_of r.last → Follows r c
  black_card : r.draw ≡ 0 → color_of c ≡ color_all → Follows r c
  wish :
      r.draw ≡ 0 → color_of r.last ≡ color_all → r.last_chg_color ≡ pos (color_of c) → Follows r c
  draw2_on_draw2 :
      func_of r.last ≡ func_draw2
      → color_of r.last ≢ color_all
      → func_of c ≡ func_draw2
      → Follows r c
  color_draw4_on_draw2 :
      func_of r.last ≡ func_draw2
      → func_of c ≡ func_draw4
      → color_of r.last ≢ color_all
      → color_of c ≡ color_of r.last
      → Follows r c
  black_draw4_on_draw2 :
      func_of r.last ≡ func_draw2
      → func_of c ≡ func_draw4
      → color_of r.last ≢ color_all
      → color_of c ≡ color_all
      → Follows r c
  draw4_on_draw4 :
      func_of r.last ≡ func_draw4
      → color_of r.last ≢ color_all
      → func_of c ≡ func_draw4
      → Follows r c

-- A call that answers a yes-no question about `P`.
abbrev pub Answers : Type 0 → Outcome Bool → Type 0
Answers P m = (b : Bool) × (m ≡ ok b) × ((b ≡ true) ↔ P)

pub get_color_ok : (c : ℤ) → has_color c ≡ true → get_color c ≡ ok (low3 c)
unfolding get_color has_color
get_color_ok c h = rw h refl

-- The cards that pass a penalty on.
may_stack : ℕ → ℕ → ℕ → ℕ → Bool
may_stack color func last_color last_func =
    not (last_color == color_all)
    && ((last_func == func_draw2)
          && ((func == func_draw2)
              || ((func == func_draw4) && ((color == last_color) || (color == color_all))))
        || ((last_func == func_draw4) && (func == func_draw4)))

-- With a penalty the assertion at the end of the cascade cannot be reached.
can_follow_draw-may_stack :
    (color func last_color last_func : ℕ)
    → (last_func == func_draw2 || last_func == func_draw4) ≡ true
    → can_follow_draw color func last_color last_func
      ≡ ok (may_stack color func last_color last_func)
unfolding can_follow_draw may_stack
can_follow_draw-may_stack color func last_color last_func h = ground arith

may_stack_cases :
    (color func last_color last_func : ℕ)
    → may_stack color func last_color last_func ≡ true
    → (last_color ≢ color_all)
      × (((last_func ≡ func_draw2) × (func ≡ func_draw2))
          ⊎ ((last_func ≡ func_draw2) × (func ≡ func_draw4) × (color ≡ last_color))
          ⊎ ((last_func ≡ func_draw2) × (func ≡ func_draw4) × (color ≡ color_all))
          ⊎ ((last_func ≡ func_draw4) × (func ≡ func_draw4)))
unfolding may_stack
may_stack_cases color func last_color last_func h = ground arith

may_stack-Follows :
    (r : Room) (c : ℤ)
    → 0 < r.draw
    → may_stack (color_of c) (func_of c) (color_of r.last) (func_of r.last) ≡ true
    → Follows r c
may_stack-Follows r c h e =
    let (n, s) = may_stack_cases (color_of c) (func_of c) (color_of r.last) (func_of r.last) e in
    elim s [
      | inl (l, f) ↦ draw2_on_draw2 l n f
      | inr (inl (l, f, k)) ↦ color_draw4_on_draw2 l f n k
      | inr (inr (inl (l, f, k))) ↦ black_draw4_on_draw2 l f n k
      | inr (inr (inr (l, f))) ↦ draw4_on_draw4 l n f
    ]

Follows-may_stack :
    (r : Room) (c : ℤ)
    → 0 < r.draw
    → c ≢ r.last
    → Follows r c
    → may_stack (color_of c) (func_of c) (color_of r.last) (func_of r.last) ≡ true
unfolding may_stack
Follows-may_stack r c h ne (same_card e) = absurd (ne e)
Follows-may_stack r c h ne (same_color z e) = absurd (omega arith)
Follows-may_stack r c h ne (same_func z e) = absurd (omega arith)
Follows-may_stack r c h ne (black_card z e) = absurd (omega arith)
Follows-may_stack r c h ne (wish z e k) = absurd (omega arith)
Follows-may_stack r c h ne (draw2_on_draw2 e n k) = ground arith
Follows-may_stack r c h ne (color_draw4_on_draw2 e k n m) = ground arith
Follows-may_stack r c h ne (black_draw4_on_draw2 e k n m) = ground arith
Follows-may_stack r c h ne (draw4_on_draw4 e n k) = ground arith

can_follow_cases :
    (color func last_color last_func : ℕ) (chg_color : ℤ)
    → can_follow color func last_color last_func chg_color ≡ true
    → (color ≡ last_color)
      ⊎ (func ≡ last_func)
      ⊎ (color ≡ color_all)
      ⊎ ((last_color ≡ color_all) × ((chg_color ==ℤ pos color) ≡ true))
unfolding can_follow
can_follow_cases color func last_color last_func chg_color h = ground arith

can_follow-Follows :
    (r : Room) (c : ℤ)
    → r.draw ≡ 0
    → can_follow (color_of c) (func_of c) (color_of r.last) (func_of r.last) r.last_chg_color ≡ true
    → Follows r c
can_follow-Follows r c h e =
    elim (can_follow_cases (color_of c) (func_of c) (color_of r.last) (func_of r.last)
      r.last_chg_color e) [
        | inl k ↦ same_color h k
        | inr (inl k) ↦ same_func h k
        | inr (inr (inl k)) ↦ black_card h k
        | inr (inr (inr (k, m))) ↦ wish h k ((==ℤ_iff r.last_chg_color (pos (color_of c))).0 m)
      ]

Follows-can_follow :
    (r : Room) (c : ℤ)
    → r.draw ≡ 0
    → c ≢ r.last
    → Follows r c
    → can_follow (color_of c) (func_of c) (color_of r.last) (func_of r.last) r.last_chg_color ≡ true
unfolding can_follow
Follows-can_follow r c h ne (same_card e) = absurd (ne e)
Follows-can_follow r c h ne (same_color z e) = ground arith
Follows-can_follow r c h ne (same_func z e) = ground arith
Follows-can_follow r c h ne (black_card z e) = ground arith
Follows-can_follow r c h ne (wish z e k) =
    let w = (==ℤ_iff r.last_chg_color (pos (color_of c))).1 k in rw (e, w) refl
Follows-can_follow r c h ne (draw2_on_draw2 e n k) = ground arith
Follows-can_follow r c h ne (color_draw4_on_draw2 e k n m) = ground arith
Follows-can_follow r c h ne (black_draw4_on_draw2 e k n m) = ground arith
Follows-can_follow r c h ne (draw4_on_draw4 e n k) = ground arith

-- Out of turn only the last card itself, while that is allowed.
abbrev pub MayPlay : Room → ℤ → Bool → Type 0
MayPlay r c ahead = if ahead then (r.can_play_ahead ≡ true) × (c ≡ r.last) else Follows r c

ahead_lem :
    (r : Room) (c : ℤ)
    → ((if not r.can_play_ahead then false else c ==ℤ r.last) ≡ true)
      ↔ ((r.can_play_ahead ≡ true) × (c ≡ r.last))
ahead_lem r c = elim (Bool-cases r.can_play_ahead) [
  | inl e ↦ rw e (λ h. (refl, (==ℤ_iff c r.last).0 h), λ h. (==ℤ_iff c r.last).1 h.1)
  | inr e ↦ rw e (λ h. absurd (cc), λ h. absurd (cc))
]

-- A card in turn that is not the same as the last one.
can_play_other_lem :
    (r : Room) (c : ℤ)
    → has_color c ≡ true
    → has_color r.last ≡ true
    → (0 < r.draw → is_draw_card r.last ≡ true)
    → (r.last ==ℤ c) ≡ false
    → Answers (Follows r c) (game_can_play_card r c false)
unfolding game_can_play_card func_of is_draw_card
can_play_other_lem r c hc hl hd e =
    let ne : c ≢ r.last = λ k. absurd (cc (e, (==ℤ_iff r.last c).1 (sym k))) in
    elim (Bool-cases (ltb 0 r.draw)) [
      | inl p ↦
          let h : 0 < r.draw = ground arith in
          let done =
            can_follow_draw-may_stack (color_of c) (func_of c) (color_of r.last) (func_of r.last)
              (hd h) in
          (
            may_stack (color_of c) (func_of c) (color_of r.last) (func_of r.last),
            rw
                (
                  e,
                  get_color_ok c hc,
                  get_func_total c,
                  get_color_ok r.last hl,
                  get_func_total r.last,
                  p,
                )
                done,
            (may_stack-Follows r c h, Follows-may_stack r c h ne),
          )
      | inr p ↦
          let z : r.draw ≡ 0 = ground arith in
          (
            can_follow (color_of c) (func_of c) (color_of r.last) (func_of r.last) r.last_chg_color,
            rw
                (
                  e,
                  get_color_ok c hc,
                  get_func_total c,
                  get_color_ok r.last hl,
                  get_func_total r.last,
                  p,
                )
                refl,
            (can_follow-Follows r c z, Follows-can_follow r c z ne),
          )
    ]

pub game_can_play_card_lem :
    (r : Room) (c : ℤ) (ahead : Bool)
    → has_color c ≡ true
    → has_color r.last ≡ true
    → (0 < r.draw → is_draw_card r.last ≡ true)
    → (b : Bool) × (game_can_play_card r c ahead ≡ ok b) × ((b ≡ true) ↔ MayPlay r c ahead)
unfolding game_can_play_card
game_can_play_card_lem r c true hc hl hd =
    (if not r.can_play_ahead then false else c ==ℤ r.last, refl, ahead_lem r c)
game_can_play_card_lem r c false hc hl hd = elim (Bool-cases (r.last ==ℤ c)) [
  | inl e ↦ (true, rw e refl, (λ _. same_card (sym ((==ℤ_iff r.last c).0 e)), λ _. refl))
  | inr e ↦ can_play_other_lem r c hc hl hd e
]
