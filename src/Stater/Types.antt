-- ===== src/Stater/Types.antt =====
-- `class GameStater` of src/game/stater.h: its state. The integer counters start at 0 and only
-- grow; a field that holds a uid or -1 is an option, with `none` for -1.
use uno_server.Common.{ℕ, ◌+◌, Bool, false, Option, none, some, List, [], ℤ, negsuc, lookup, insert}

-- `deal_card_reason` of src/game/constants.h
pub data DealReason : Type 0 where
  normal draw bad_uno report last_card : DealReason

-- `player_left_reason` of src/game/constants.h
pub data LeftReason : Type 0 where
  normal offline_kick kicked_by_owner : LeftReason

-- `GameStater::Stat`. The maps count cards by their function code.
pub record Stat : Type 0 where
  pub game_count : ℕ
  pub total_draw : ℕ
  pub draw_by_sys : ℕ
  pub draw_by_report : ℕ
  pub draw_by_draw_card : ℕ
  pub draw_cards : List (ℕ × ℕ)
  pub draw_black_cards : List (ℕ × ℕ)
  pub total_play : ℕ
  pub play_ahead : ℕ
  pub play_cards : List (ℕ × ℕ)
  pub play_black_cards : List (ℕ × ℕ)
  pub reports : ℕ
  pub be_reported : ℕ
  pub uno : ℕ
  pub forgot_uno : ℕ
  pub win : ℕ
  pub sp_forbid_others_uno : ℕ
  pub sp_cause_others_win : ℕ
  pub sp_draw_others_eat_by_self : ℕ
  pub sp_draw_by_others_max : ℕ

abbrev pub no_stat : Stat
no_stat = record {
  game_count = 0;
  total_draw = 0;
  draw_by_sys = 0;
  draw_by_report = 0;
  draw_by_draw_card = 0;
  draw_cards = [];
  draw_black_cards = [];
  total_play = 0;
  play_ahead = 0;
  play_cards = [];
  play_black_cards = [];
  reports = 0;
  be_reported = 0;
  uno = 0;
  forgot_uno = 0;
  win = 0;
  sp_forbid_others_uno = 0;
  sp_cause_others_win = 0;
  sp_draw_others_eat_by_self = 0;
  sp_draw_by_others_max = 0;
}

-- `Stat::get_val`
unfoldable pub get_val : List (ℕ × ℕ) → ℕ → ℕ
get_val m key = elim (lookup key m) [ none ↦ 0 | some n ↦ n ]

-- `m[key] += 1`
unfoldable pub bump : ℕ → List (ℕ × ℕ) → List (ℕ × ℕ)
unfolding get_val
bump key m = insert key (get_val m key + 1) m

pub record DisplayStat : Type 0 where
  pub id : ℕ
  pub uid : ℕ
  pub counter : ℕ
  pub score : ℕ

pub record GameStater : Type 0 where
  pub gaming : Bool
  pub round_stat : List (ℕ × Stat)
  pub display_stat : List DisplayStat
  pub draw_starter : Option ℕ
  pub last_play_draw : Option ℕ
  pub last_color_chger : Option ℕ
  pub last_color : ℤ
  pub last_play_card_by : Option ℕ
  pub last_play_card : ℤ
  pub can_trace_winner_causer : Bool

-- The member initialisers of a new object.
abbrev pub new_stater : GameStater
new_stater = record {
  gaming = false;
  round_stat = [];
  display_stat = [];
  draw_starter = none;
  last_play_draw = none;
  last_color_chger = none;
  last_color = negsuc 0;
  last_play_card_by = none;
  last_play_card = negsuc 0;
  can_trace_winner_causer = false;
}

-- A write through a reference or an iterator to an element; without the element, no write.
unfoldable pub update_stat : ℕ → (Stat → Stat) → List (ℕ × Stat) → List (ℕ × Stat)
update_stat uid f m = elim (lookup uid m) [ none ↦ m | some s ↦ insert uid (f s) m ]

-- The same where the uid may be -1, which is no key of the map.
unfoldable pub update_stat_of : Option ℕ → (Stat → Stat) → List (ℕ × Stat) → List (ℕ × Stat)
unfolding update_stat
update_stat_of none f m = m
update_stat_of (some uid) f m = update_stat uid f m
