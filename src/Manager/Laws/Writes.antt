-- ===== src/Manager/Laws/Writes.antt =====
-- Writes to one session keep the server of src/game/room.cpp proper.
use uno_server.Common.{
  ℕ, ◌≡◌, ◌⊎◌, inl, inr, refl, sym, ap, ◌∙◌, true, some, ◌==◌, ==_iff, Bool-cases,
}
use mathlib.Core.Path.{subst}
use uno_server.Session.Types.{Session, is_gaming}
use uno_server.Session.Ssmgr.{Ssmgr, find_session, update_session_at}
use uno_server.Manager.Types.{Server, on_session}
use uno_server.Manager.Laws.Invariant.{IsServer, Placed}

-- What a handle points to after a write.
store-cases :
    (sid j : ℕ) (f : Session → Session) (m : Ssmgr)
    → ((sid ≡ j) × ((update_session_at sid f m).store j ≡ f (m.store sid)))
      ⊎ ((update_session_at sid f m).store j ≡ m.store j)
unfolding update_session_at
store-cases sid j f m = elim (Bool-cases (sid == j)) [
  | inl same ↦
      let here : sid ≡ j = (==_iff sid j).0 same in
      inl (here, rw same (ap (λ (k : ℕ). f (m.store k)) (sym here)))
  | inr ne ↦ inr (rw ne refl)
]

one_user :
    {s : Server} (sid uid u : ℕ)
    → IsServer s
    → find_session uid s.ssmgr ≡ some sid
    → find_session u s.ssmgr ≡ some sid
    → uid ≡ u
one_user {s} sid uid u i found e =
    let p = i.attached uid sid found in let q = i.attached u sid e in cc

abbrev write : ℕ → (Session → Session) → Server → Server
write sid f s = record s { ssmgr = update_session_at sid f s.ssmgr }

attached-write :
    {s : Server} (sid uid : ℕ) (f : Session → Session)
    → IsServer s
    → find_session uid s.ssmgr ≡ some sid
    → (f (s.ssmgr.store sid)).uid ≡ (s.ssmgr.store sid).uid
    → (u j : ℕ) → find_session u s.ssmgr ≡ some j
    → ((write sid f s).ssmgr.store j).uid ≡ some u
attached-write {s} sid uid f i found same u j e = elim (store-cases sid j f s.ssmgr) [
  | inl (here, new) ↦
      ap (λ (z : Session). z.uid) new ∙ same ∙ i.attached u sid (e ∙ ap some (sym here))
  | inr old ↦ ap (λ (z : Session). z.uid) old ∙ i.attached u j e
]

Placed-write :
    {s : Server} (sid uid : ℕ) (f : Session → Session)
    → IsServer s
    → find_session uid s.ssmgr ≡ some sid
    → (is_gaming (f (s.ssmgr.store sid)).state ≡ true
        → Placed s.m_rooms uid (f (s.ssmgr.store sid)))
    → (u j : ℕ) → find_session u s.ssmgr ≡ some j
    → is_gaming ((write sid f s).ssmgr.store j).state ≡ true
    → Placed s.m_rooms u ((write sid f s).ssmgr.store j)
Placed-write {s} sid uid f i found placed u j e g = elim (store-cases sid j f s.ssmgr) [
  | inl (here, new) ↦
      let user = one_user sid uid u i found (e ∙ ap some (sym here)) in
      let its = placed (ap (λ (z : Session). is_gaming z.state) (sym new) ∙ g) in
      subst (Placed s.m_rooms u) (sym new)
        (subst (λ (k : ℕ). Placed s.m_rooms k (f (s.ssmgr.store sid))) user its)
  | inr old ↦
      subst (Placed s.m_rooms u) (sym old)
        (i.placed u j e (ap (λ (z : Session). is_gaming z.state) (sym old) ∙ g))
]

-- A write to the session of an attached user, who is placed afterwards if the session plays.
pub on_session-IsServer :
    {s : Server} (sid uid : ℕ) (f : Session → Session)
    → IsServer s
    → find_session uid s.ssmgr ≡ some sid
    → (f (s.ssmgr.store sid)).uid ≡ (s.ssmgr.store sid).uid
    → (is_gaming (f (s.ssmgr.store sid)).state ≡ true
        → Placed s.m_rooms uid (f (s.ssmgr.store sid)))
    → IsServer (on_session sid f s)
unfolding on_session update_session_at find_session
on_session-IsServer {s} sid uid f i found same placed = record {
  rooms = i.rooms;
  keyed = i.keyed;
  next_fits = i.next_fits;
  attached = attached-write sid uid f i found same;
  placed = Placed-write sid uid f i found placed;
}
