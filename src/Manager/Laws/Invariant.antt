-- ===== src/Manager/Laws/Invariant.antt =====
-- What holds of the room manager's state between requests, and what keeps it.
use uno_server.Common.{
  ℕ, ◌≤◌, ◌≡◌, ◌⊎◌, inl, inr, refl, sym, ap, ◌∙◌, true, false, some, List, arith, ◌==◌, ==_iff,
  ==_self, ==_ne, pos, negsuc, leb_ℤ, length, All, lookup, insert, contains, keys, lookup-insert,
  Outcome, ok, Bool-cases,
}
use mathlib.Core.Path.{subst}
use uno_server.Session.Types.{Session, is_gaming}
use uno_server.Session.Ssmgr.{find_session}
use uno_server.Room.Types.{Room}
use uno_server.Room.Notify.{World}
use uno_server.Room.Laws.Piles.{IsMember}
use uno_server.Manager.Laws.Times.{times, times-insert_old, times-insert_new, times-absent}
use uno_server.Manager.Answers.{Reply}
use uno_server.Manager.Types.{Server, answer, put_back}

-- A room under its key: as many players as seats, every player at one seat and nobody else at any,
-- and no more of them than the room takes, or one.
pub record IsRoom (id : ℕ) (r : Room) : Type 0 where
  pub same_id : r.id ≡ id
  pub counted : r.curr_players ≡ length r.seq
  pub entries : length r.players ≡ length r.seq
  pub seats : All (λ u. IsMember u r.players) r.seq
  pub once : (u : ℕ) → times u (keys r.players) ≡ times u r.seq
  pub single : (u : ℕ) → times u r.seq ≤ 1
  pub fits : (r.curr_players ≤ 1) ⊎ (leb_ℤ (pos r.curr_players) r.max_players ≡ true)

-- The room that a session names is there, and the session's player in it; or it names none.
abbrev pub Placed : List (ℕ × Room) → ℕ → Session → Type 0
Placed rooms uid ss =
    (ss.room_id ≡ negsuc 0)
    ⊎ ((id : ℕ) × (r : Room) × (ss.room_id ≡ pos id)
        × (lookup id rooms ≡ some r)
        × IsMember uid r.players)

pub record IsServer (s : Server) : Type 0 where
  pub rooms : (id : ℕ) (r : Room) → lookup id s.m_rooms ≡ some r → IsRoom id r
  pub keyed : (id : ℕ) → times id (keys s.m_rooms) ≤ 1
  pub next_fits : s.m_next_room_id ≤ 2147483647
  pub attached :
      (uid sid : ℕ) → find_session uid s.ssmgr ≡ some sid → (s.ssmgr.store sid).uid ≡ some uid
  pub placed :
      (uid sid : ℕ)
      → find_session uid s.ssmgr ≡ some sid
      → is_gaming (s.ssmgr.store sid).state ≡ true
      → Placed s.m_rooms uid (s.ssmgr.store sid)

-- A call that returns a server of that kind.
abbrev pub Returns : (Server → Type 0) → Outcome Server → Type 0
Returns P m = (s' : Server) × (m ≡ ok s') × P s'

pub answer-IsServer :
    (sid : ℕ) (reply : Reply) {s : Server} → IsServer s → IsServer (answer sid reply s)
unfolding answer
answer-IsServer sid reply {s} i = record {
  rooms = i.rooms;
  keyed = i.keyed;
  next_fits = i.next_fits;
  attached = i.attached;
  placed = i.placed;
}

-- The table of rooms after a write.
lookup-set :
    (id : ℕ) (r' : Room) (rooms : List (ℕ × Room)) → lookup id (insert id r' rooms) ≡ some r'
lookup-set id r' rooms = rw (lookup-insert id id r' rooms, ==_self id) refl

lookup-set_other :
    (id j : ℕ) (r' : Room) (rooms : List (ℕ × Room))
    → (id == j) ≡ false
    → lookup j (insert id r' rooms) ≡ lookup j rooms
lookup-set_other id j r' rooms ne = rw (lookup-insert id j r' rooms, ne) refl

pub rooms-set :
    (id : ℕ) (r' : Room) (rooms : List (ℕ × Room))
    → ((j : ℕ) (r : Room) → lookup j rooms ≡ some r → IsRoom j r)
    → IsRoom id r'
    → (j : ℕ) (r : Room) → lookup j (insert id r' rooms) ≡ some r
    → IsRoom j r
rooms-set id r' rooms all room j r e = elim (Bool-cases (id == j)) [
  | inl same ↦
      let at : id ≡ j = (==_iff id j).0 same in
      let its : r' ≡ r = let h = lookup-set id r' rooms in cc in
      subst (λ (k : ℕ). IsRoom k r) at (subst (IsRoom id) its room)
  | inr ne ↦ all j r (sym (lookup-set_other id j r' rooms ne) ∙ e)
]

-- The keys of the table after a write.
pub keyed_old :
    (j id : ℕ) (r r' : Room) (rooms : List (ℕ × Room))
    → lookup id rooms ≡ some r
    → times j (keys rooms) ≤ 1
    → times j (keys (insert id r' rooms)) ≤ 1
keyed_old j id r r' rooms there h = rw (times-insert_old j id r' r rooms there) h

keyed_new :
    (j id : ℕ) (r' : Room) (rooms : List (ℕ × Room))
    → times j (keys rooms) ≤ 1
    → contains id rooms ≡ false
    → times j (keys (insert id r' rooms)) ≤ 1
keyed_new j id r' rooms h fresh =
    let grown = times-insert_new j id r' rooms fresh in
    elim (Bool-cases (id == j)) [
      | inl same ↦
          let here : id ≡ j = (==_iff id j).0 same in
          let none_yet : times j (keys rooms) ≡ 0 = rw (sym here) (times-absent id rooms fresh) in
          ground arith
      | inr other ↦ ground arith
    ]

-- Whoever is placed stays so when its room keeps its players.
pub Placed-set :
    (id : ℕ) (r r' : Room) (rooms : List (ℕ × Room)) (uid : ℕ) (ss : Session)
    → lookup id rooms ≡ some r
    → (IsMember uid r.players → IsMember uid r'.players)
    → Placed rooms uid ss
    → Placed (insert id r' rooms) uid ss
Placed-set id r r' rooms uid ss found keeps (inl out) = inl out
Placed-set id r r' rooms uid ss found keeps (inr (j, q, at, there, member)) =
    elim (Bool-cases (id == j)) [
      | inl same ↦
          let here : id ≡ j = (==_iff id j).0 same in
          let its : q ≡ r = cc in
          let member' = subst (λ (z : Room). IsMember uid z.players) its member in
          inr (id, r', at ∙ ap pos (sym here), lookup-set id r' rooms, keeps member')
      | inr ne ↦ inr (j, q, at, lookup-set_other id j r' rooms ne ∙ there, member)
    ]

-- A room's code that leaves a proper room with the players it had.
pub put_back-IsServer :
    {s : Server} (id : ℕ) (r r' : Room) (w : World)
    → IsServer s
    → lookup id s.m_rooms ≡ some r
    → w.room ≡ r'
    → IsRoom id r'
    → ((u : ℕ) → IsMember u r.players → IsMember u r'.players)
    → IsServer (put_back id w s)
unfolding put_back
put_back-IsServer {s} id r r' w i found e room keeps = rw e (record {
  rooms = rooms-set id r' s.m_rooms i.rooms room;
  keyed = λ j. keyed_old j id r r' s.m_rooms found (i.keyed j);
  next_fits = i.next_fits;
  attached = i.attached;
  placed = λ uid sid f g.
      Placed-set id r r' s.m_rooms uid (s.ssmgr.store sid) found (keeps uid) (i.placed uid sid f g);
})

-- The same for a write to the table alone.
pub set_room-IsServer :
    {s : Server} (id : ℕ) (r r' : Room)
    → IsServer s
    → lookup id s.m_rooms ≡ some r
    → IsRoom id r'
    → ((u : ℕ) → IsMember u r.players → IsMember u r'.players)
    → IsServer (record s { m_rooms = insert id r' s.m_rooms })
set_room-IsServer {s} id r r' i found room keeps = record {
  rooms = rooms-set id r' s.m_rooms i.rooms room;
  keyed = λ j. keyed_old j id r r' s.m_rooms found (i.keyed j);
  next_fits = i.next_fits;
  attached = i.attached;
  placed = λ uid sid f g.
      Placed-set id r r' s.m_rooms uid (s.ssmgr.store sid) found (keeps uid) (i.placed uid sid f g);
}

Placed-add :
    (id : ℕ) (r' : Room) (rooms : List (ℕ × Room)) (uid : ℕ) (ss : Session)
    → contains id rooms ≡ false
    → Placed rooms uid ss
    → Placed (insert id r' rooms) uid ss
Placed-add id r' rooms uid ss fresh (inl out) = inl out
Placed-add id r' rooms uid ss fresh (inr (j, q, at, there, member)) =
    let ne : (id == j) ≡ false =
      ==_ne id j (λ k. let gone : lookup id rooms ≡ some q = rw k there in absurd (ground arith)) in
    inr (j, q, at, lookup-set_other id j r' rooms ne ∙ there, member)

-- A new room, under an id that no room has.
pub add_room-IsServer :
    {s : Server} (id next : ℕ) (r' : Room)
    → IsServer s
    → contains id s.m_rooms ≡ false
    → next ≤ 2147483647
    → IsRoom id r'
    → IsServer (record s { m_rooms = insert id r' s.m_rooms; m_next_room_id = next })
add_room-IsServer {s} id next r' i fresh fits room = record {
  rooms = rooms-set id r' s.m_rooms i.rooms room;
  keyed = λ j. keyed_new j id r' s.m_rooms (i.keyed j) fresh;
  next_fits = fits;
  attached = i.attached;
  placed = λ uid sid f g.
      Placed-add id r' s.m_rooms uid (s.ssmgr.store sid) fresh (i.placed uid sid f g);
}
