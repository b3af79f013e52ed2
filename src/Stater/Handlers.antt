-- ===== src/Stater/Handlers.antt =====
-- The handlers of src/game/stater.cpp. `hands` holds the hand sizes of the room's players, which
-- is all that a handler reads of them.
use uno_server.Common.{
  ℕ, ◌+◌, ◌-◌, ◌%◌, ◌^◌, Bool, true, false, not, ◌&&◌, ◌||◌, ◌==◌, leb, if◌then◌else◌, Option, none,
  some, List, [], ◌∷◌, ℤ, pos, negsuc, ◌==ℤ◌, lookup, erase, insert, Outcome, ok, assert_some,
  ◌>>=◌,
}
use uno_server.Card.{color_all, func_draw2, func_draw4, get_color, get_func, is_func_card}
use uno_server.Stater.Types.{
  DealReason, Stat, no_stat, GameStater, bump, update_stat, update_stat_of,
}

any_uno : List ℕ → Bool
any_uno [] = false
any_uno (n ∷ hands) = if n == 1 then true else any_uno hands

reset_tracer : Bool → GameStater → GameStater
reset_tracer on g = record g {
  last_color_chger = none;
  last_color = negsuc 0;
  last_play_card_by = none;
  last_play_card = negsuc 0;
  can_trace_winner_causer = on;
}

unfoldable pub check_uno_traceable : List ℕ → GameStater → GameStater
unfolding any_uno reset_tracer
check_uno_traceable hands g =
    if any_uno hands && not g.can_trace_winner_causer
    then reset_tracer true g
    else if not (any_uno hands) && g.can_trace_winner_causer
    then reset_tracer false g
    else g

-- `m_last_color_chger && m_last_color_chger != uid`: -1 counts as true, 0 as false.
other_color_chger : Option ℕ → ℕ → Bool
other_color_chger none uid = true
other_color_chger (some chger) uid = not (chger == 0) && not (chger == uid)

-- The last part of `check_winner_causer`.
color_causer : GameStater → ℕ → ℤ → Outcome (Option ℕ)
unfolding other_color_chger get_color
color_causer g uid c =
    if other_color_chger g.last_color_chger uid
    then (do
      color ← get_color c
      ok (if pos color ==ℤ g.last_color then g.last_color_chger else none))
    else ok none

-- A follow by function, of another colour than the card before.
func_causer : GameStater → ℕ → ℤ → Bool → Outcome (Option ℕ)
unfolding color_causer get_func
func_causer g uid c same_color = if same_color then color_causer g uid c else (do
  last_func ← get_func g.last_play_card
  func ← get_func c
  if last_func == func then ok g.last_play_card_by else color_causer g uid c)

-- `none` stands for the result -1.
unfoldable pub check_winner_causer : GameStater → ℕ → ℤ → Bool → Outcome (Option ℕ)
unfolding color_causer func_causer get_color
check_winner_causer g uid c ahead =
    if not g.can_trace_winner_causer
    then color_causer g uid c
    else if ahead
    then (if g.last_play_card ==ℤ c then ok g.last_play_card_by else color_causer g uid c)
    else (do
      last_color ← get_color g.last_play_card
      color ← get_color c
      func_causer g uid c (last_color == color))

no_stats : List ℕ → List (ℕ × Stat)
no_stats [] = []
no_stats (uid ∷ uids) = insert uid no_stat (no_stats uids)

-- The source sets `game_count` on a local copy after it was stored, so it stays 0.
unfoldable pub on_game_start : List ℕ → GameStater
unfolding no_stats
on_game_start uids = record {
  gaming = true;
  round_stat = no_stats uids;
  display_stat = [];
  draw_starter = none;
  last_play_draw = none;
  last_color_chger = none;
  last_color = negsuc 0;
  last_play_card_by = none;
  last_play_card = negsuc 0;
  can_trace_winner_causer = false;
}

unfoldable pub on_player_left : GameStater → ℕ → GameStater
on_player_left g uid = if g.gaming then record g { round_stat = erase uid g.round_stat } else g

count_drawn : ℕ → List ℤ → List (ℕ × Stat) → Outcome (List (ℕ × Stat))
unfolding get_color get_func bump update_stat
count_drawn uid [] m = ok m
count_drawn uid (c ∷ cs) m = do
  func ← get_func c
  color ← get_color c
  count_drawn uid cs (
      update_stat uid
        (λ s.
          if color == color_all
          then record s { draw_black_cards = bump func s.draw_black_cards }
          else record s { draw_cards = bump func s.draw_cards })
        m)

max_ℕ : ℕ → ℕ → ℕ
max_ℕ a b = if leb a b then b else a

-- The counters of a player who draws `n` cards for the draw cards before.
drawn_by_others : ℕ → Bool → Stat → Stat
unfolding max_ℕ
drawn_by_others n by_self s = record s {
  draw_by_draw_card = s.draw_by_draw_card + n;
  sp_draw_by_others_max = max_ℕ s.sp_draw_by_others_max n;
  sp_draw_others_eat_by_self = s.sp_draw_others_eat_by_self + (if by_self then 1 else 0);
}

is_uid : Option ℕ → ℕ → Bool
is_uid none uid = false
is_uid (some u) uid = u == uid

-- The branches on the reason. `rest_count - deal_count` is a `size_t`.
count_reason : GameStater → ℕ → ℕ → ℕ → DealReason → Option ℕ → GameStater
unfolding update_stat update_stat_of drawn_by_others is_uid
count_reason g uid rest_count deal_count DealReason.draw report_by =
    let m = update_stat uid (drawn_by_others deal_count (is_uid g.draw_starter uid)) g.round_stat in
    record g {
      round_stat =
          if (rest_count + 2 ^ 64 - deal_count) % 2 ^ 64 == 1
          then update_stat_of g.last_play_draw
              (λ s. record s { sp_forbid_others_uno = s.sp_forbid_others_uno + 1 }) m
          else m;
      draw_starter = none;
      last_play_draw = none;
    }
count_reason g uid rest_count deal_count DealReason.bad_uno report_by = record g {
  round_stat =
      update_stat uid (λ s. record s { draw_by_sys = s.draw_by_sys + deal_count }) g.round_stat;
}
count_reason g uid rest_count deal_count DealReason.report report_by = record g {
  round_stat =
      update_stat_of report_by (λ s. record s { reports = s.reports + 1 })
        (update_stat uid
          (λ s. record s {
            draw_by_report = s.draw_by_report + deal_count;
            be_reported = s.be_reported + 1;
          })
          g.round_stat);
}
count_reason g uid rest_count deal_count _ report_by = g

unfoldable pub on_card_deal :
    List ℕ → GameStater → ℕ → ℕ → ℕ → List ℤ → DealReason → Option ℕ → Outcome GameStater
unfolding count_reason count_drawn check_uno_traceable
on_card_deal hands g uid rest_count deal_count deal_cards reason report_by = do
  found ← assert_some (lookup uid g.round_stat)
  let g1 = count_reason g uid rest_count deal_count reason report_by
  m ← count_drawn uid deal_cards g1.round_stat
  ok (check_uno_traceable hands (record g1 { round_stat = m }))

-- The counters of the player who plays.
played : ℕ → ℕ → Bool → Bool → Bool → Stat → Stat
unfolding bump
played color func need_uno with_uno ahead s =
    let black = color == color_all in
    record s {
      total_play = s.total_play + 1;
      play_ahead = s.play_ahead + (if ahead then 1 else 0);
      uno = s.uno + (if need_uno then 1 else 0);
      forgot_uno = s.forgot_uno + (if need_uno && not with_uno then 1 else 0);
      play_black_cards = if black then bump func s.play_black_cards else s.play_black_cards;
      play_cards = if black then s.play_cards else bump func s.play_cards;
    }

-- `if (!m_draw_starter) m_draw_starter = uid;`: only 0 is false.
start_draw : ℕ → GameStater → GameStater
start_draw uid g = record g {
  draw_starter = elim g.draw_starter [ none ↦ none | some u ↦ if u == 0 then some uid else some u ];
  last_play_draw = some uid;
}

-- The trace of the card that let the next player win.
trace_play : ℕ → ℤ → ℕ → Bool → ℤ → GameStater → GameStater
trace_play uid c color ahead last_chg_color g =
    if not g.can_trace_winner_causer
    then g
    else let g1 =
        if color == color_all
        then record g { last_color_chger = some uid; last_color = last_chg_color }
        else g in
      if ahead then g1 else record g1 { last_play_card = c; last_play_card_by = some uid }

-- The count for the player who made the winner win.
blame_causer : GameStater → ℕ → ℤ → Bool → Outcome GameStater
unfolding check_winner_causer update_stat_of
blame_causer g uid c ahead = do
  causer ← check_winner_causer g uid c ahead
  ok (record g {
    round_stat =
        update_stat_of causer (λ s. record s { sp_cause_others_win = s.sp_cause_others_win + 1 })
          g.round_stat;
  })

-- `if (rest_count == 0 && !card::is_func_card(c))`
blame : GameStater → ℕ → ℤ → ℕ → Bool → Outcome GameStater
unfolding blame_causer is_func_card
blame g uid c rest_count ahead =
    if not (rest_count == 0)
    then ok g
    else (do action ← is_func_card c; if action then ok g else blame_causer g uid c ahead)

unfoldable pub on_card_play :
    List ℕ → ℤ → GameStater → ℕ → ℤ → Bool → Bool → ℕ → Bool → Outcome GameStater
unfolding get_color get_func played start_draw blame trace_play update_stat check_uno_traceable
on_card_play hands last_chg_color g uid c need_uno with_uno rest_count ahead = do
  found ← assert_some (lookup uid g.round_stat)
  func ← get_func c
  color ← get_color c
  let g1 = record g {
    round_stat = update_stat uid (played color func need_uno with_uno ahead) g.round_stat;
  }
  let g2 = if func == func_draw2 || func == func_draw4 then start_draw uid g1 else g1
  g3 ← blame g2 uid c rest_count ahead
  ok (trace_play uid c color ahead last_chg_color (check_uno_traceable hands g3))
