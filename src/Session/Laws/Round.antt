-- ===== src/Session/Laws/Round.antt =====
-- `Ssmgr::update` and `on_disconnect` of src/core/ssmgr.h and ssmgr.cpp.
use uno_server.Common.{
  ℕ, zero, suc, ◌<◌, ◌≡◌, ◌⊎◌, inl, inr, refl, sym, ap, ◌∙◌, List, [], arith, ◌==◌, ==_iff, ℤ,
  length, get_elem?_in_range, ok, Bool-cases,
}
use mathlib.Core.Path.{subst}
use uno_server.Session.Ssmgr.{
  Ssmgr, is_due, update_session_at, update_session, wrap_iter, update_loop, iter_count, update,
}

-- A step of the loop keeps the vector of sessions and the iterator.
update_session-frame :
    (now : ℤ) (sid : ℕ) (st : List ℕ × Ssmgr)
    → ((update_session now sid st).1.m_sessions ≡ st.1.m_sessions)
      × ((update_session now sid st).1.m_iter ≡ st.1.m_iter)
      × ((update_session now sid st).1.m_uid2session ≡ st.1.m_uid2session)
unfolding update_session update_session_at
update_session-frame now sid (saved, m) = elim (Bool-cases (is_due now (m.store sid))) [
  | inl e ↦ (rw e refl, rw e refl, rw e refl)
  | inr e ↦ (rw e refl, rw e refl, rw e refl)
]

-- The state between ticks: the iterator is a seat of the vector, if that is not empty.
pub record IsRound (m m' : Ssmgr) : Type 0 where
  pub same_sessions : m'.m_sessions ≡ m.m_sessions
  pub same_users : m'.m_uid2session ≡ m.m_uid2session
  pub in_vector : m'.m_iter < length m.m_sessions

pub wrap_iter_lt : (n i : ℕ) → 0 < n → wrap_iter n i < n
unfolding wrap_iter
wrap_iter_lt n i h = ground arith

update_loop-IsRound :
    (now : ℤ) (begin k : ℕ) (m : Ssmgr) (saved : List ℕ)
    → m.m_iter < length m.m_sessions
    → (out : List ℕ) × (m' : Ssmgr) × (update_loop now begin k (saved, m) ≡ ok (out, m'))
      × IsRound m m'
unfolding update_loop
update_loop-IsRound now begin zero m saved h =
    (saved, m, refl, record { same_sessions = refl; same_users = refl; in_vector = h })
update_loop-IsRound now begin (suc k) m saved h =
    let (sid, e) = get_elem?_in_range m.m_sessions m.m_iter h in
    let st1 = update_session now sid (saved, m) in
    let (f1, f2, f3) = update_session-frame now sid (saved, m) in
    let m1 = st1.1 in
    let i = wrap_iter (length m1.m_sessions) (suc m1.m_iter) in
    let m2 : Ssmgr = record m1 { m_iter = i } in
    let size = ap length f1 in
    let some_there : 0 < length m.m_sessions = omega arith in
    let fits : i < length m1.m_sessions =
      wrap_iter_lt (length m1.m_sessions) (suc m1.m_iter)
        (subst (λ (n : ℕ). 0 < n) (sym size) some_there) in
    elim (Bool-cases (i == begin)) [
      | inl stop ↦ (
        st1.0,
        m2,
        rw e (rw stop refl),
        record {
          same_sessions = f1;
          same_users = f3;
          in_vector = subst (λ (n : ℕ). i < n) size fits;
        },
      )
      | inr go ↦
          let (out, m', done, r) = update_loop-IsRound now begin k m2 st1.0 fits in
          (
            out,
            m',
            rw e (rw go done),
            record {
              same_sessions = r.same_sessions ∙ f1;
              same_users = r.same_users ∙ f3;
              in_vector = subst (λ (n : ℕ). m'.m_iter < n) size r.in_vector;
            },
          )
    ]

-- A tick of the session manager never reads outside its vector of sessions, wherever the iterator
-- was left by sessions that went away; it keeps the sessions and the users, and with a session
-- there the iterator is one of the vector's indices afterwards.
pub update-IsRound :
    (now : ℤ) (m : Ssmgr)
    → (out : List ℕ) × (m' : Ssmgr) × (update now m ≡ ok (out, m'))
      × (m'.m_sessions ≡ m.m_sessions)
      × (m'.m_uid2session ≡ m.m_uid2session)
      × ((length m.m_sessions ≡ 0) ⊎ (m'.m_iter < length m.m_sessions))
unfolding update
update-IsRound now m = elim (Bool-cases (length m.m_sessions == 0)) [
  | inl e ↦ ([], m, rw e refl, refl, refl, inl ((==_iff (length m.m_sessions) 0).0 e))
  | inr e ↦
      let n = length m.m_sessions in
      let i = wrap_iter n m.m_iter in
      let fits : i < n = wrap_iter_lt n m.m_iter (ground arith) in
      let (out, m', done, r) =
        update_loop-IsRound now i (iter_count n) (record m { m_iter = i }) [] fits in
      (out, m', rw e done, r.same_sessions, r.same_users, inr r.in_vector)
]
