-- ===== src/Manager/Laws/Rooms.antt =====
-- What the requests of src/game/room.cpp do to a room keeps it proper.
use Prim.Native.String.{String}
use uno_server.Common.{
  All-map, All-append_one, ℕ, suc, ◌≡◌, inl, inr, refl, sym, ◌∙◌, true, false, some, List, [], ◌∷◌,
  arith, ℤ, pos, negsuc, leb_ℤ, length, length-append, length-insert, length-map_values, lookup,
  insert, contains, map_values, keys, ◌≤◌, ◌++◌, ◌==◌, ==_iff, Bool-cases,
}
use uno_server.Session.Types.{Session}
use uno_server.Room.Types.{Room, Player, PlayerMap}
use uno_server.Room.Random.{Random}
use uno_server.Room.Notify.{World}
use uno_server.Room.Laws.Piles.{IsMember}
use uno_server.Manager.Create.{new_player, new_room}
use uno_server.Manager.Enter.{join}
use uno_server.Manager.Seats.{with_player, unready, reseat}
use uno_server.Manager.Laws.Invariant.{IsRoom}
use uno_server.Manager.Laws.Times.{
  times, times-append_one, times-insert_new, times-insert_old, times-absent, times-map_values,
  times-contains, All-times,
}

-- What the documentation of `std::shuffle` says of the seats: the same players in another order.
pub record KeepsSeats (R : Random) : Type 0 where
  pub seats_length : (gen : ℕ) (seq : List ℕ) → length (R.shuffle_seats gen seq).0 ≡ length seq
  pub seats_times :
      (gen : ℕ) (seq : List ℕ) (u : ℕ) → times u (R.shuffle_seats gen seq).0 ≡ times u seq

length-insert_new :
    (uid : ℕ) (p : Player) (m : PlayerMap)
    → contains uid m ≡ false
    → length (insert uid p m) ≡ suc (length m)
length-insert_new uid p [] h = refl
length-insert_new uid p ((j, q) ∷ m) h = ground (arith, length-insert_new uid p m)

pub IsMember-insert :
    (uid u : ℕ) (p : Player) (m : PlayerMap) → IsMember u m → IsMember u (insert uid p m)
IsMember-insert uid u p [] h = absurd (ground arith)
IsMember-insert uid u p ((j, q) ∷ m) h = ground (arith, IsMember-insert uid u p m)

pub IsMember-inserted : (uid : ℕ) (p : Player) (m : PlayerMap) → IsMember uid (insert uid p m)
IsMember-inserted uid p [] = ground arith
IsMember-inserted uid p ((j, q) ∷ m) = ground (arith, IsMember-inserted uid p m)

IsMember-map_values :
    (u : ℕ) (f : Player → Player) (m : PlayerMap) → IsMember u m → IsMember u (map_values f m)
IsMember-map_values u f [] h = h
IsMember-map_values u f ((j, q) ∷ m) h = ground (arith, IsMember-map_values u f m)

pub new_room-IsRoom :
    (id uid : ℕ) (title : String) (n : ℤ) (ss : Session) → IsRoom id (new_room id uid title n ss)
unfolding new_room
new_room-IsRoom id uid title n ss = record {
  same_id = refl;
  counted = refl;
  entries = refl;
  seats = (ground arith, tt);
  once = λ u. refl;
  single = λ u. ground arith;
  fits = inl (omega arith);
}

-- A room that is not full has a place for one more.
one_more : (n : ℕ) (m : ℤ) → leb_ℤ m (pos n) ≡ false → leb_ℤ (pos (suc n)) m ≡ true
one_more n (pos m) h = ground arith
one_more n (negsuc m) h = absurd (ground arith)

join-single :
    (u uid : ℕ) (seq : List ℕ) (players : PlayerMap)
    → times u (keys players) ≡ times u seq
    → times u seq ≤ 1
    → contains uid players ≡ false
    → times u (seq ++ uid ∷ []) ≤ 1
join-single u uid seq players same one out =
    let grown = times-append_one u uid seq in
    elim (Bool-cases (uid == u)) [
      | inl here ↦
          let at : uid ≡ u = (==_iff uid u).0 here in
          let none_yet : times u (keys players) ≡ 0 = rw (sym at) (times-absent uid players out) in
          ground arith
      | inr other ↦ ground arith
    ]

pub join-IsRoom :
    {id : ℕ} {r : Room} (uid : ℕ) (ss : Session)
    → IsRoom id r
    → contains uid r.players ≡ false
    → leb_ℤ r.max_players (pos r.curr_players) ≡ false
    → IsRoom id (join uid ss r)
unfolding join
join-IsRoom {id} {r} uid ss i out space = record {
  same_id = i.same_id;
  counted = rw (length-append r.seq (uid ∷ [])) (omega (arith, i.counted));
  entries =
      rw (length-append r.seq (uid ∷ []), length-insert_new uid (new_player ss) r.players out)
        (omega (arith, i.entries));
  seats =
      All-append_one _ r.seq uid
        (All-map r.seq (λ u. IsMember-insert uid u (new_player ss) r.players) i.seats)
        (IsMember-inserted uid (new_player ss) r.players);
  once = λ u.
      let m = i.once u in
      omega (
        arith,
        times-append_one u uid r.seq,
        times-insert_new u uid (new_player ss) r.players out,
        m,
      );
  single = λ u. join-single u uid r.seq r.players (i.once u) (i.single u) out;
  fits = inr (one_more r.curr_players r.max_players space);
}

pub with_player-IsRoom :
    {id : ℕ} {r : Room} (uid : ℕ) (p q : Player)
    → IsRoom id r
    → lookup uid r.players ≡ some p
    → IsRoom id (with_player uid q r)
unfolding with_player
with_player-IsRoom {id} {r} uid p q i found = record {
  same_id = i.same_id;
  counted = i.counted;
  entries = length-insert uid q p r.players found ∙ i.entries;
  seats = All-map r.seq (λ u. IsMember-insert uid u q r.players) i.seats;
  once = λ u. times-insert_old u uid q p r.players found ∙ i.once u;
  single = i.single;
  fits = i.fits;
}

pub reseat-IsRoom :
    {R : Random} {id : ℕ} (now : ℤ) (w : World)
    → KeepsSeats R
    → IsRoom id w.room
    → IsRoom id (reseat R now w).room
unfolding reseat unready
reseat-IsRoom {R} {id} now w k i =
    let seq = w.room.seq in
    let f : Player → Player = λ p. record p { ready = false } in
    record {
      same_id = i.same_id;
      counted = i.counted ∙ sym (k.seats_length w.gen seq);
      entries = length-map_values f w.room.players ∙ i.entries ∙ sym (k.seats_length w.gen seq);
      seats = All-times _ (λ u h.
          times-contains u (map_values f w.room.players) (
            rw (times-map_values u f w.room.players, i.once u, sym (k.seats_times w.gen seq u)) h));
      once = λ u. times-map_values u f w.room.players ∙ i.once u ∙ sym (k.seats_times w.gen seq u);
      single = λ u. rw (k.seats_times w.gen seq u) (i.single u);
      fits = i.fits;
    }

pub IsMember-reseat :
    (R : Random) (now : ℤ) (w : World) (u : ℕ)
    → IsMember u w.room.players
    → IsMember u (reseat R now w).room.players
unfolding reseat unready
IsMember-reseat R now w u m =
    IsMember-map_values u (λ p. record p { ready = false }) w.room.players m
