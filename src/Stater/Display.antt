-- ===== src/Stater/Display.antt =====
-- `get_stat`, `get_winner_stealer` and `on_player_win` of src/game/stater.cpp: the round's awards.
use uno_server.Common.{
  ℕ, zero, suc, ◌+◌, ◌-◌, ◌*◌, false, not, ◌&&◌, ◌==◌, leb, if◌then◌else◌, Option, none, some, List,
  [], ◌∷◌, ◌++◌, lookup, insert, Outcome, ok, assert_some, ◌>>=◌,
}
use uno_server.Card.{func_draw4}
use uno_server.Stater.Types.{Stat, no_stat, DisplayStat, GameStater, get_val, update_stat}

-- `m_round_stat[uid]`: a missing entry is created.
unfoldable pub get_stat : ℕ → GameStater → Stat × GameStater
get_stat uid g = elim (lookup uid g.round_stat) [
  | some s ↦ (s, g)
  | none ↦ (no_stat, record g { round_stat = insert uid no_stat g.round_stat })
]

first_causer : List (ℕ × Stat) → Option ℕ
first_causer [] = none
first_causer ((uid, s) ∷ m) = if leb 1 s.sp_cause_others_win then some uid else first_causer m

unfoldable pub get_winner_stealer : GameStater → Option ℕ
unfolding first_causer
get_winner_stealer g = first_causer g.round_stat

-- `struct StatEvent`, without its `id`, which no code reads.
pub record StatEvent : Type 0 where
  pub get_field : Stat → ℕ
  pub score : ℕ
  pub min_display_count : ℕ

unfoldable pub stat_event_display_table : List StatEvent
unfolding get_val
stat_event_display_table =
    record { get_field = λ s. s.draw_by_report; score = 1; min_display_count = 4 }
    ∷ record { get_field = λ s. s.draw_by_draw_card; score = 1; min_display_count = 10 }
    ∷ record {
      get_field = λ s. get_val s.draw_black_cards func_draw4;
      score = 5;
      min_display_count = 3;
    }
    ∷ record {
      get_field = λ s. get_val s.play_black_cards func_draw4 + get_val s.play_cards func_draw4;
      score = 2;
      min_display_count = 4;
    }
    ∷ record { get_field = λ s. s.reports; score = 5; min_display_count = 3 }
    ∷ record { get_field = λ s. s.be_reported; score = 5; min_display_count = 3 }
    ∷ record { get_field = λ s. s.uno; score = 5; min_display_count = 3 }
    ∷ record { get_field = λ s. s.sp_forbid_others_uno; score = 6; min_display_count = 2 }
    ∷ record { get_field = λ s. s.sp_draw_others_eat_by_self; score = 6; min_display_count = 2 }
    ∷ record { get_field = λ s. s.sp_draw_by_others_max; score = 5; min_display_count = 10 }
    ∷ []

-- One row of the table against every player. `i` is the row's index.
unfoldable pub awards_of : ℕ → StatEvent → List (ℕ × Stat) → List DisplayStat
awards_of i e [] = []
awards_of i e ((uid, s) ∷ m) =
    let cnt = e.get_field s in
    let rest = awards_of i e m in
    if not (cnt == 0) && leb e.min_display_count cnt
    then record { id = i; uid = uid; counter = cnt; score = (cnt - e.min_display_count) * e.score }
      ∷ rest
    else rest

unfoldable pub awards : ℕ → List StatEvent → List (ℕ × Stat) → List DisplayStat
unfolding awards_of
awards i [] m = []
awards i (e ∷ es) m = awards_of i e m ++ awards (suc i) es m

-- `std::sort` by falling score. The order of equal scores is not fixed by the source; here an
-- entry stays behind the equal ones after it in the list.
unfoldable pub insert_award : DisplayStat → List DisplayStat → List DisplayStat
insert_award d [] = d ∷ []
insert_award d (x ∷ xs) = if leb x.score d.score then d ∷ x ∷ xs else x ∷ insert_award d xs

unfoldable pub sort_awards : List DisplayStat → List DisplayStat
unfolding insert_award
sort_awards [] = []
sort_awards (d ∷ ds) = insert_award d (sort_awards ds)

-- `if (v.size() > n) v.resize(n);`
unfoldable pub keep_first {ℓ} : {A : Type ℓ} → ℕ → List A → List A
keep_first zero xs = []
keep_first (suc n) [] = []
keep_first (suc n) (x ∷ xs) = x ∷ keep_first n xs

unfoldable pub on_player_win : GameStater → ℕ → Outcome GameStater
unfolding awards sort_awards keep_first update_stat stat_event_display_table
on_player_win g winner = do
  found ← assert_some (lookup winner g.round_stat)
  let m = update_stat winner (λ s. record s { win = 1 }) g.round_stat
  ok (record g {
    gaming = false;
    round_stat = m;
    display_stat =
        keep_first 5 (sort_awards (g.display_stat ++ awards 0 stat_event_display_table m));
  })
