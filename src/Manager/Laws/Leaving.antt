-- ===== src/Manager/Laws/Leaving.antt =====
-- `game_player_leave` of src/game/room.cpp keeps a room proper.
use uno_server.Common.{
  ℕ, ◌-◌, ◌≤◌, ◌≡◌, ◌≢◌, inl, inr, sym, ap, ◌∙◌, true, Option, some, arith, ℤ, pos, negsuc, leb_ℤ,
  length, length-erase, length-erase_at, lookup, lookup-erase_other, erase, keys, index_of,
  index_of_sound, erase_at, Option-cases,
}
use mathlib.Core.Path.{subst}
use uno_server.Room.Types.{Room, Player, PlayerMap}
use uno_server.Room.Laws.Piles.{IsMember, IsMember-of_keys, member_some}
use uno_server.Room.Laws.Kept.{Kept}
use uno_server.Room.Laws.Kept.Leaves.{vacated, removed, Left}
use uno_server.Manager.Laws.Times.{
  times, times-erase_at, times-missing, times-erase, contains-times, times-contains, All-times,
}
use uno_server.Manager.Laws.Invariant.{IsRoom}
use uno_server.Manager.Laws.Playing.{length-keys, Kept-IsRoom}

fewer : (n : ℕ) (m : ℤ) → leb_ℤ (pos n) m ≡ true → leb_ℤ (pos (n - 1)) m ≡ true
fewer n (pos m) h = ground arith
fewer n (negsuc m) h = absurd (ground arith)

-- The keys after an entry is taken out.
once_less :
    (u uid i : ℕ) (s t : Room) (p : Player)
    → IsRoom s.id s
    → index_of uid s.seq ≡ some i
    → Kept (vacated (some i) s) t
    → lookup uid t.players ≡ some p
    → (times u (keys (erase uid t.players)) ≡ times u t.seq) × (times u t.seq ≤ times u s.seq)
once_less u uid i s t p room at k e =
    let gone = times-erase u uid p t.players e in
    let less = times-erase_at u uid i s.seq at in
    let old = room.once u in
    let entries : times u (keys t.players) ≡ times u (keys s.players) = ap (times u) k.same_keys in
    let seats : times u t.seq ≡ times u (erase_at i s.seq) = ap (times u) k.same_seats in
    (omega arith, omega arith)

removed-IsRoom :
    {id : ℕ} {s t : Room} (uid i : ℕ) (p : Player)
    → IsRoom id s
    → index_of uid s.seq ≡ some i
    → Kept (vacated (some i) s) t
    → lookup uid t.players ≡ some p
    → IsRoom id (removed uid t)
removed-IsRoom {id} {s} {t} uid i p room at k e =
    let here : IsRoom s.id s = subst (λ (n : ℕ). IsRoom n s) (sym room.same_id) room in
    let same_times : (u : ℕ) → times u (keys (erase uid t.players)) ≡ times u t.seq =
      λ u. (once_less u uid i s t p here at k e).0 in
    let count = k.same_count in
    let counted = room.counted in
    let entries = room.entries in
    let seats : length t.seq ≡ length (erase_at i s.seq) = ap length k.same_seats in
    let players = length-keys t.players s.players k.same_keys in
    let less = length-erase_at i s.seq (index_of_sound uid s.seq i at).0 in
    let gone = length-erase uid p t.players e in
    record {
      same_id = k.same_id ∙ room.same_id;
      counted = omega arith;
      entries = omega arith;
      seats =
          All-times t.seq
            (λ u h. times-contains u (erase uid t.players) (let n = same_times u in omega arith));
      once = same_times;
      single = λ u.
          let one = room.single u in
          let le = (once_less u uid i s t p here at k e).1 in omega arith;
      fits = elim room.fits [
        | inl h ↦ inl (omega arith)
        | inr h ↦ inr (fewer t.curr_players t.max_players (rw (k.same_count, k.same_max) h))
      ];
    }

IsMember-erase : (uid u : ℕ) (m : PlayerMap) → uid ≢ u → IsMember u m → IsMember u (erase uid m)
IsMember-erase uid u m ne h = let same = lookup-erase_other uid u m ne in ground arith

-- What a leave does to a proper room.
pub Left-IsRoom :
    {id : ℕ} {r r' : Room} (uid : ℕ)
    → Left uid r r'
    → IsRoom id r
    → IsRoom id r' × ((u : ℕ) → uid ≢ u → IsMember u r.players → IsMember u r'.players)
Left-IsRoom {id} {r} {r'} uid l room =
    let s = l.start in
    let t = l.vacant in
    let room1 = Kept-IsRoom l.kept room in
    let (q, e) = l.was_there in
    let was : IsMember uid r.players = ground arith in
    let member = IsMember-of_keys uid r.players s.players (sym l.kept.same_keys) was in
    elim (Option-cases (index_of uid s.seq)) [
      | inl no_seat ↦
          let none_there = times-missing uid s.seq no_seat in
          let some_there = contains-times uid s.players member in
          let same = room1.once uid in absurd (omega arith)
      | inr (i, at) ↦
          let k : Kept (vacated (some i) s) t =
            subst (λ (o : Option ℕ). Kept (vacated o s) t) at l.seat_gone in
          let (p, found) =
            member_some uid t.players
              (IsMember-of_keys uid s.players t.players (sym k.same_keys) member) in
          (
            Kept-IsRoom l.rest (removed-IsRoom uid i p room1 at k found),
            λ u ne m. IsMember-of_keys u (erase uid t.players) r'.players (sym l.rest.same_keys) (
                IsMember-erase uid u t.players ne (
                  IsMember-of_keys u r.players t.players (sym (k.same_keys ∙ l.kept.same_keys)) m)),
          )
    ]
