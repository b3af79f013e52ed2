-- ===== src/Stater/Awards.antt =====
-- `on_player_win` of src/game/stater.cpp: which awards are shown.
use Prim.Native.Nat.{min}
use mathlib.Core.Path.{subst}
use mathlib.Core.List.{Perm}
use mathlib.Core.List.Perm
use uno_server.Common.{
  ℕ, zero, suc, ◌≤◌, ◌≡◌, refl, sym, ap, ◌∙◌, true, false, some, List, [], ◌∷◌, ◌++◌, arith, leb,
  length, lookup, contains, All, ok, Bool-cases, Option-cases, inl, inr,
}
use uno_server.Stater.Types.{GameStater, Stat, DisplayStat, update_stat}
use uno_server.Stater.Display.{
  awards, stat_event_display_table, insert_award, sort_awards, keep_first, on_player_win,
}

-- Scores that do not rise along the list.
unfoldable pub IsFalling : List DisplayStat → Type 0
IsFalling [] = Unit
IsFalling (d ∷ ds) = All (λ (x : DisplayStat). x.score ≤ d.score) ds × IsFalling ds

-- The awards that the winner's game may show, before the choice.
abbrev pub candidates : GameStater → ℕ → List DisplayStat
candidates g winner =
    g.display_stat
    ++ awards 0 stat_event_display_table
        (update_stat winner (λ s. record s { win = 1 }) g.round_stat)

All-insert_award :
    (P : DisplayStat → Type 0) (d : DisplayStat) (ds : List DisplayStat)
    → P d
    → All P ds
    → All P (insert_award d ds)
unfolding insert_award
All-insert_award P d [] p a = (p, tt)
All-insert_award P d (x ∷ xs) p a = elim (Bool-cases (leb x.score d.score)) [
  | inl e ↦ rw e (p, a)
  | inr e ↦ rw e (a.0, All-insert_award P d xs p a.1)
]

All-below :
    (m n : ℕ) (ds : List DisplayStat)
    → m ≤ n
    → All (λ (x : DisplayStat). x.score ≤ m) ds
    → All (λ (x : DisplayStat). x.score ≤ n) ds
All-below m n [] h a = tt
All-below m n (x ∷ xs) h a = (omega (arith, a.0), All-below m n xs h a.1)

insert_award-IsFalling :
    (d : DisplayStat) (ds : List DisplayStat) → IsFalling ds → IsFalling (insert_award d ds)
unfolding IsFalling insert_award
insert_award-IsFalling d [] f = (tt, tt)
insert_award-IsFalling d (x ∷ xs) f = elim (Bool-cases (leb x.score d.score)) [
  | inl e ↦
      let h : x.score ≤ d.score = ground arith in rw e ((h, All-below x.score d.score xs h f.0), f)
  | inr e ↦
      let h : d.score ≤ x.score = ground arith in
      rw e (
        All-insert_award (λ (y : DisplayStat). y.score ≤ x.score) d xs h f.0,
        insert_award-IsFalling d xs f.1,
      )
]

sort_awards-IsFalling : (ds : List DisplayStat) → IsFalling (sort_awards ds)
unfolding sort_awards IsFalling
sort_awards-IsFalling [] = tt
sort_awards-IsFalling (d ∷ ds) =
    insert_award-IsFalling d (sort_awards ds) (sort_awards-IsFalling ds)

length-insert_award :
    (d : DisplayStat) (ds : List DisplayStat) → length (insert_award d ds) ≡ suc (length ds)
unfolding insert_award
length-insert_award d [] = refl
length-insert_award d (x ∷ xs) = elim (Bool-cases (leb x.score d.score)) [
  | inl e ↦ rw e refl
  | inr e ↦ rw e (ap suc (length-insert_award d xs))
]

length-sort_awards : (ds : List DisplayStat) → length (sort_awards ds) ≡ length ds
unfolding sort_awards
length-sort_awards [] = refl
length-sort_awards (d ∷ ds) =
    length-insert_award d (sort_awards ds) ∙ ap suc (length-sort_awards ds)

Perm-insert_award : (d : DisplayStat) (ds : List DisplayStat) → Perm (insert_award d ds) (d ∷ ds)
unfolding insert_award
Perm-insert_award d [] = Perm.refl (d ∷ [])
Perm-insert_award d (x ∷ xs) = elim (Bool-cases (leb x.score d.score)) [
  | inl e ↦ rw e (Perm.refl (d ∷ x ∷ xs))
  | inr e ↦ rw e (Perm.trans (Perm.cons x (Perm-insert_award d xs)) (Perm.swap d x xs))
]

Perm-sort_awards : (ds : List DisplayStat) → Perm (sort_awards ds) ds
unfolding sort_awards
Perm-sort_awards [] = Perm.refl []
Perm-sort_awards (d ∷ ds) =
    Perm.trans (Perm-insert_award d (sort_awards ds)) (Perm.cons d (Perm-sort_awards ds))

-- What `keep_first` takes off.
hidden_of : ℕ → List DisplayStat → List DisplayStat
hidden_of zero xs = xs
hidden_of (suc n) [] = []
hidden_of (suc n) (x ∷ xs) = hidden_of n xs

keep_first-append : (n : ℕ) (ds : List DisplayStat) → keep_first n ds ++ hidden_of n ds ≡ ds
unfolding keep_first hidden_of
keep_first-append zero ds = refl
keep_first-append (suc n) [] = refl
keep_first-append (suc n) (x ∷ xs) = ap (λ (l : List DisplayStat). x ∷ l) (keep_first-append n xs)

length-keep_first : (n : ℕ) (ds : List DisplayStat) → length (keep_first n ds) ≡ min n (length ds)
unfolding keep_first
length-keep_first zero ds = omega arith
length-keep_first (suc n) [] = omega arith
length-keep_first (suc n) (x ∷ xs) = omega (arith, length-keep_first n xs)

on_player_win_shown :
    (g : GameStater) (winner : ℕ) (s : Stat)
    → lookup winner g.round_stat ≡ some s
    → on_player_win g winner
      ≡ ok (record g {
        gaming = false;
        round_stat = update_stat winner (λ s. record s { win = 1 }) g.round_stat;
        display_stat = keep_first 5 (sort_awards (candidates g winner));
      })
unfolding on_player_win
on_player_win_shown g winner s e = rw e refl

-- For a counted winner `on_player_win` returns and ends the round. It shows five of the awards, or
-- all of them if there are fewer: those shown and those left out are together the awards, each as
-- often as before, and in that order no score is higher than one before it.
pub on_player_win_lem :
    (g : GameStater) (winner : ℕ)
    → contains winner g.round_stat ≡ true
    → (g' : GameStater) × (on_player_win g winner ≡ ok g')
      × (g'.gaming ≡ false)
      × (length g'.display_stat ≡ min 5 (length (candidates g winner)))
      × ((hidden : List DisplayStat) × Perm (g'.display_stat ++ hidden) (candidates g winner)
          × IsFalling (g'.display_stat ++ hidden))
on_player_win_lem g winner m = elim (Option-cases (lookup winner g.round_stat)) [
  | inl e ↦ absurd (ground arith)
  | inr (s, e) ↦
      let shown = sort_awards (candidates g winner) in
      (
        record g {
          gaming = false;
          round_stat = update_stat winner (λ s. record s { win = 1 }) g.round_stat;
          display_stat = keep_first 5 shown;
        },
        on_player_win_shown g winner s e,
        refl,
        length-keep_first 5 shown ∙ ap (λ n. min 5 n) (length-sort_awards (candidates g winner)),
        (
          hidden_of 5 shown,
          subst (λ (l : List DisplayStat). Perm l (candidates g winner))
              (sym (keep_first-append 5 shown)) (Perm-sort_awards (candidates g winner)),
          subst IsFalling (sym (keep_first-append 5 shown))
              (sort_awards-IsFalling (candidates g winner)),
        ),
      )
]
