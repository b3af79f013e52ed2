-- ===== src/Manager/Laws/Emptying.antt =====
-- A server without a player, and `clean_room` of src/game/room.h, stay proper.
use uno_server.Common.{
  ℕ, ◌≤◌, ◌≡◌, inl, inr, sym, ◌∙◌, false, some, List, [], ◌∷◌, arith, ◌==◌, ==_iff, ==_self, length,
  lookup, lookup-erase_other, erase, keys, Bool-cases, Option-cases,
}
use mathlib.Core.Path.{subst}
use uno_server.Session.Types.{Session, is_gaming}
use uno_server.Session.Ssmgr.{find_session, update_session_at}
use uno_server.Room.Types.{Room, PlayerMap}
use uno_server.Room.Notify.{World}
use uno_server.Room.Laws.Piles.{IsMember}
use uno_server.Room.Laws.Kept.Leaves.{Left}
use uno_server.Manager.Types.{Server, on_session, put_back}
use uno_server.Manager.Leave.{empty_gone, clean_room}
use uno_server.Manager.Laws.Times.{times, times-erase, contains-times}
use uno_server.Manager.Laws.Invariant.{IsServer, Placed, rooms-set, keyed_old, Placed-set}
use uno_server.Manager.Laws.Writes.{on_session-IsServer}
use uno_server.Manager.Laws.Leaving.{Left-IsRoom}

-- The session of the user does not play.
abbrev pub IsOut : ℕ → Server → Type 0
IsOut uid s =
    (sid : ℕ) → find_session uid s.ssmgr ≡ some sid → is_gaming (s.ssmgr.store sid).state ≡ false

pub put_back-Left :
    {s : Server} (id uid : ℕ) (r : Room) (w : World)
    → IsServer s
    → lookup id s.m_rooms ≡ some r
    → IsOut uid s
    → Left uid r w.room
    → IsServer (put_back id w s)
unfolding put_back
put_back-Left {s} id uid r w i there out l =
    let (room, others) = Left-IsRoom uid l (i.rooms id r there) in
    record {
      rooms = rooms-set id w.room s.m_rooms i.rooms room;
      keyed = λ j. keyed_old j id r w.room s.m_rooms there (i.keyed j);
      next_fits = i.next_fits;
      attached = i.attached;
      placed = λ u sid f g. elim (Bool-cases (uid == u)) [
        | inl k ↦
            let same : uid ≡ u = (==_iff uid u).0 k in
            let rests = out sid (rw same f) in absurd (ground arith)
        | inr k ↦
            Placed-set id r w.room s.m_rooms u (s.ssmgr.store sid) there (others u (ground arith))
              (i.placed u sid f g)
      ];
    }

-- The table without a room that nobody is in.
lookup-erased :
    (id j : ℕ) (r : Room) (rooms : List (ℕ × Room))
    → times id (keys rooms) ≤ 1
    → lookup j (erase id rooms) ≡ some r
    → lookup j rooms ≡ some r
lookup-erased id j r [] one h = h
lookup-erased id j r ((k, q) ∷ rooms) one h = elim (Bool-cases (k == id)) [
  | inl at ↦ elim (Bool-cases (k == j)) [
    | inl same ↦
        let twice = contains-times j rooms (ground arith) in
        let its : id ≡ j = ground arith in
        let one' : times j (keys ((k, q) ∷ rooms)) ≤ 1 =
          subst (λ (n : ℕ). times n (keys ((k, q) ∷ rooms)) ≤ 1) its one in
        absurd (ground arith)
    | inr other ↦ ground arith
  ]
  | inr other ↦ ground (arith, lookup-erased id j r rooms)
]

member_length : (u : ℕ) (m : PlayerMap) → IsMember u m → 1 ≤ length m
member_length u [] h = absurd (ground arith)
member_length u ((j, p) ∷ m) h = omega arith

Placed-erase :
    (id : ℕ) (r : Room) (rooms : List (ℕ × Room)) (u : ℕ) (ss : Session)
    → lookup id rooms ≡ some r
    → length r.players ≡ 0
    → Placed rooms u ss
    → Placed (erase id rooms) u ss
Placed-erase id r rooms u ss there empty (inl out) = inl out
Placed-erase id r rooms u ss there empty (inr (j, q, at, found, member)) =
    elim (Bool-cases (id == j)) [
      | inl k ↦
          let same : id ≡ j = (==_iff id j).0 k in
          let its : q ≡ r = cc in
          let some_player =
            member_length u r.players (subst (λ (z : Room). IsMember u z.players) its member) in
          absurd (omega arith)
      | inr k ↦ inr (j, q, at, lookup-erase_other id j rooms (ground arith) ∙ found, member)
    ]

erase_room-IsServer :
    {s : Server} (id : ℕ) (r : Room)
    → IsServer s
    → lookup id s.m_rooms ≡ some r
    → r.curr_players ≡ 0
    → IsServer (record s { m_rooms = erase id s.m_rooms })
erase_room-IsServer {s} id r i there empty =
    let room = i.rooms id r there in
    let nobody : length r.players ≡ 0 = room.entries ∙ sym room.counted ∙ empty in
    record {
      rooms = λ j q found. i.rooms j q (lookup-erased id j q s.m_rooms (i.keyed id) found);
      keyed =
          λ j. let less = times-erase j id r s.m_rooms there in let one = i.keyed j in omega arith;
      next_fits = i.next_fits;
      attached = i.attached;
      placed = λ u sid f g.
          Placed-erase id r s.m_rooms u (s.ssmgr.store sid) there nobody (i.placed u sid f g);
    }

pub clean_room-IsServer : {s : Server} (id : ℕ) → IsServer s → IsServer (clean_room id s)
unfolding clean_room empty_gone
clean_room-IsServer {s} id i = elim (Option-cases (lookup id s.m_rooms)) [
  | inl e ↦ rw e i
  | inr (r, e) ↦ elim (Bool-cases (r.curr_players == 0)) [
    | inl none_left ↦ rw (e, none_left) (erase_room-IsServer id r i e (ground arith))
    | inr some_left ↦ rw (e, some_left) i
  ]
]

-- A session that is taken out of the game.
pub on_session-IsOut :
    {s : Server} (sid uid : ℕ) (f : Session → Session)
    → IsServer s
    → find_session uid s.ssmgr ≡ some sid
    → ((ss : Session) → (f ss).uid ≡ ss.uid)
    → ((ss : Session) → is_gaming (f ss).state ≡ false)
    → IsServer (on_session sid f s) × IsOut uid (on_session sid f s)
unfolding on_session find_session update_session_at
on_session-IsOut {s} sid uid f i found same out =
    let there = out (s.ssmgr.store sid) in
    (
      on_session-IsServer sid uid f i found (same (s.ssmgr.store sid)) (λ g. absurd (ground arith)),
      λ j e.
          let its : sid ≡ j = ground arith in
          subst (λ (k : ℕ). is_gaming ((on_session sid f s).ssmgr.store k).state ≡ false) its
            (rw (==_self sid) there),
    )
