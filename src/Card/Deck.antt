-- ===== src/Card/Deck.antt =====
-- `CARD_SET` of src/game/card.h, in the order of the source.
use uno_server.Common.{ℕ, zero, suc, List, [], ◌∷◌, ◌++◌, ℤ, pos, Outcome, ok, ◌>>=◌}
use uno_server.Card.{
  color_all, color_red, color_yellow, color_blue, color_green, func_0, func_skip, func_reverse,
  func_draw2, func_draw4, func_chgcolor, compose_card,
}

-- Two of each number card from `func` on.
number_pairs : ℕ → ℕ → ℕ → List (ℕ × ℕ)
number_pairs zero color func = []
number_pairs (suc n) color func = (color, func) ∷ (color, func) ∷ number_pairs n color (suc func)

-- One 0 and two each of 1 to 9.
number_cards : ℕ → List (ℕ × ℕ)
unfolding number_pairs
number_cards color = (color, func_0) ∷ number_pairs 9 color (suc func_0)

action_cards : ℕ → List (ℕ × ℕ)
action_cards color =
    (color, func_skip)
    ∷ (color, func_skip)
    ∷ (color, func_reverse)
    ∷ (color, func_reverse)
    ∷ (color, func_draw2)
    ∷ (color, func_draw2)
    ∷ (color, func_draw4)
    ∷ (color, func_draw4)
    ∷ []

wild_cards : List (ℕ × ℕ)
wild_cards =
    (color_all, func_draw4)
    ∷ (color_all, func_draw4)
    ∷ (color_all, func_draw4)
    ∷ (color_all, func_draw4)
    ∷ (color_all, func_chgcolor)
    ∷ (color_all, func_chgcolor)
    ∷ (color_all, func_chgcolor)
    ∷ (color_all, func_chgcolor)
    ∷ []

-- The arguments of the 116 `compose_card` calls.
unfoldable pub card_args : List (ℕ × ℕ)
unfolding number_cards action_cards wild_cards
card_args =
    number_cards color_red
    ++ (number_cards color_yellow
        ++ (number_cards color_blue
            ++ (number_cards color_green
                ++ (action_cards color_red
                    ++ (action_cards color_yellow
                        ++ (action_cards color_blue
                            ++ (action_cards color_green ++ wild_cards)))))))

compose_all : List (ℕ × ℕ) → Outcome (List ℤ)
unfolding compose_card
compose_all [] = ok []
compose_all ((color, func) ∷ rest) = do
  c ← compose_card (pos color) (pos func)
  cs ← compose_all rest
  ok (c ∷ cs)

-- The static initialiser.
unfoldable pub card_set : Outcome (List ℤ)
unfolding card_args compose_all
card_set = compose_all card_args
