-- ===== src/Lobby/Laws/Login.antt =====
-- What a login and the choice of a nick in src/game/lobby.cpp lead to.
use Prim.Native.String.{String}
use uno_server.Common.{
  lookup-erase_other, ℕ, ◌≡◌, ◌≢◌, inl, inr, refl, sym, ap, ◌∙◌, false, none, some, List, [], ◌∷◌,
  ◌++◌, arith, ◌==◌, ==_self, ==_ne, ==_iff, Bool-cases, lookup, insert, erase, contains,
  lookup-insert, index_of, ok, Option-cases,
}
use mathlib.Core.Path.{subst}
use uno_server.Session.Types.{Session, SessionState, set_state, attach}
use uno_server.Session.Ssmgr.{
  Ssmgr, find_session, update_session_at, attach_session, on_disconnect, drop_uid,
}
use uno_server.Lobby.Types.{
  DbCall, Payload, Library, Lobby, load_role_req, say, call_db, on_session,
}
use uno_server.Lobby.Requests.{detach, kick_old, admit, is_connected, login_req}

-- The keys of a table differ.
unfoldable pub Distinct : List (ℕ × ℕ) → Type 0
Distinct [] = Unit
Distinct ((k, v) ∷ m) = (contains k m ≡ false) × Distinct m

-- A user's session is in the vector and carries the user's uid, and no user stands there twice.
pub record IsSsmgr (m : Ssmgr) : Type 0 where
  pub distinct : Distinct m.m_uid2session
  pub present :
      (uid sid : ℕ)
      → lookup uid m.m_uid2session ≡ some sid
      → (i : ℕ) × (index_of sid m.m_sessions ≡ some i) × ((m.store sid).uid ≡ some uid)

contains_cons :
    (k j v : ℕ) (m : List (ℕ × ℕ)) → (j == k) ≡ false → contains k ((j, v) ∷ m) ≡ contains k m
contains_cons k j v m e = ground arith

erase-gone : (k : ℕ) (m : List (ℕ × ℕ)) → Distinct m → contains k (erase k m) ≡ false
unfolding Distinct
erase-gone k [] d = refl
erase-gone k ((j, v) ∷ m) d = elim (Bool-cases (j == k)) [
  | inl e ↦ let same : j ≡ k = (==_iff j k).0 e in rw e (rw same at d.0)
  | inr e ↦ rw e (contains_cons k j v (erase k m) e ∙ erase-gone k m d.1)
]

-- What is left of the sessions when the old one of a user is thrown out.
record Cleared (uid : ℕ) (m m' : Ssmgr) : Type 0 where
  free : contains uid m'.m_uid2session ≡ false
  others : (u : ℕ) → u ≢ uid → lookup u m'.m_uid2session ≡ lookup u m.m_uid2session
  same_store : m'.store ≡ m.store

kick_old-none : (uid : ℕ) (l : Lobby) → lookup uid l.ssmgr.m_uid2session ≡ none → kick_old uid l ≡ l
unfolding kick_old find_session
kick_old-none uid l e = rw (kick_old, find_session, e) refl

on_disconnect-present :
    (uid sid i : ℕ) (m : Ssmgr)
    → index_of sid m.m_sessions ≡ some i
    → (m.store sid).uid ≡ some uid
    → ((on_disconnect sid m).1.m_uid2session ≡ erase uid m.m_uid2session)
      × ((on_disconnect sid m).1.store ≡ m.store)
unfolding on_disconnect drop_uid
on_disconnect-present uid sid i m at its =
    (rw (on_disconnect, at, its) refl, rw (on_disconnect, at) refl)

kick_old-some :
    (uid old : ℕ) (l : Lobby)
    → lookup uid l.ssmgr.m_uid2session ≡ some old
    → (kick_old uid l).ssmgr ≡ (on_disconnect old l.ssmgr).1
unfolding detach say kick_old on_disconnect find_session
kick_old-some uid old l e = rw (kick_old, find_session, e) refl

kick_old-Cleared :
    (uid : ℕ) (l : Lobby) → IsSsmgr l.ssmgr → Cleared uid l.ssmgr (kick_old uid l).ssmgr
kick_old-Cleared uid l i = elim (Option-cases (lookup uid l.ssmgr.m_uid2session)) [
  | inl e ↦
      subst (Cleared uid l.ssmgr) (sym (ap (λ (z : Lobby). z.ssmgr) (kick_old-none uid l e)))
        (record { free = ground arith; others = λ u ne. refl; same_store = refl })
  | inr (old, e) ↦
      let (j, at, its) = i.present uid old e in
      let (users, store) = on_disconnect-present uid old j l.ssmgr at its in
      subst (Cleared uid l.ssmgr) (sym (kick_old-some uid old l e)) (record {
        free = ap (contains uid) users ∙ erase-gone uid l.ssmgr.m_uid2session i.distinct;
        others = λ u ne.
            ap (lookup u) users ∙ lookup-erase_other uid u l.ssmgr.m_uid2session (λ q. ne (sym q));
        same_store = store;
      })
]

-- A session without a uid takes a free one.
attach_session-ok :
    (sid uid : ℕ) (name email : String) (m : Ssmgr)
    → (m.store sid).uid ≡ none
    → contains uid m.m_uid2session ≡ false
    → (m' : Ssmgr) × (attach_session sid uid name email m ≡ ok m')
      × (m'.m_uid2session ≡ insert uid sid m.m_uid2session)
      × ((m'.store sid).uid ≡ some uid)
unfolding attach_session attach update_session_at
attach_session-ok sid uid name email m fresh free =
    let ss = m.store sid in
    let m1 =
      update_session_at sid (λ _. record ss { uid = some uid; name = name; email = email }) m in
    (
      record m1 { m_uid2session = insert uid sid m1.m_uid2session },
      rw fresh (rw free refl),
      refl,
      rw (==_self sid) refl,
    )

-- A session that has logged in.
pub record LoggedIn (l : Lobby) (sid uid : ℕ) (l' : Lobby) : Type 0 where
  pub state : (l'.ssmgr.store sid).state ≡ SessionState.authed
  pub has_uid : (l'.ssmgr.store sid).uid ≡ some uid
  pub found : find_session uid l'.ssmgr ≡ some sid
  pub others : (u : ℕ) → u ≢ uid → find_session u l'.ssmgr ≡ find_session u l.ssmgr
  pub asked : (asks : List DbCall) × (l'.calls ≡ asks ++ load_role_req uid ∷ [])

-- A login with a good token of a session that is connected and has no uid yet always returns, also
-- when another session has the uid: the assertions that the uid is free do not fail. Afterwards the
-- session stands for the uid and waits for its role, which has been asked for, and every other
-- user's session is what it was.
pub login_req-LoggedIn :
    (lib : Library) (l : Lobby) (sid : ℕ) (token : String) (p : Payload)
    → IsSsmgr l.ssmgr
    → (l.ssmgr.store sid).state ≡ SessionState.connected
    → (l.ssmgr.store sid).uid ≡ none
    → lib.verify token ≡ some p
    → (l' : Lobby) × (login_req lib sid token l ≡ ok l') × LoggedIn l sid p.uid l'
unfolding login_req admit is_connected on_session call_db set_state find_session update_session_at
login_req-LoggedIn lib l sid token p i start fresh good =
    let l1 = kick_old p.uid l in
    let c = kick_old-Cleared p.uid l i in
    let still : (l1.ssmgr.store sid).uid ≡ none =
      ap (λ (store : ℕ → Session). (store sid).uid) c.same_store ∙ fresh in
    let (m, attached, users, its) =
      attach_session-ok sid p.uid p.username p.email l1.ssmgr still c.free in
    let new = lookup-insert p.uid in
    (
      call_db (load_role_req p.uid)
          (on_session sid (set_state SessionState.authed) (record l1 { ssmgr = m })),
      rw start (rw good (rw attached refl)),
      record {
        state = rw (==_self sid) refl;
        has_uid = rw (==_self sid) its;
        found =
            ap (lookup p.uid) users ∙ rw (new p.uid sid l1.ssmgr.m_uid2session, ==_self p.uid) refl;
        others = λ u ne.
            ap (lookup u) users
            ∙ rw (new u sid l1.ssmgr.m_uid2session, ==_ne p.uid u (λ q. ne (sym q)))
                (c.others u ne);
        asked = (l1.calls, refl);
      },
    )
