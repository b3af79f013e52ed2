-- ===== src/Session/Ssmgr.antt =====
-- `class Ssmgr` of src/core/ssmgr.h and ssmgr.cpp. A session is known by a handle, which stands for
-- its `SessionPtr`: every holder of a handle sees what is written to the session.
use uno_server.Common.{
  ℕ, zero, suc, ◌/◌, ◌==◌, ◌&&◌, not, Bool, true, false, Option, none, some, List, [], ◌∷◌, ◌++◌,
  leb, if◌then◌else◌, ℤ, pos, leb_ℤ, lookup, insert, erase, contains, length, index_of, set,
  pop_back, get_elem?, Outcome, ok, assert_that, in_range, ◌>>=◌, ◌>>◌, ◌*◌,
}
use uno_server.Session.Types.{Session, SessionState, new_session, attach, set_undirty, sub_time}
use Prim.Native.String.{String}

pub record Ssmgr : Type 0 where
  -- what the handles point to
  pub store : ℕ → Session
  pub m_sessions : List ℕ
  pub m_uid2session : List (ℕ × ℕ)
  pub m_iter : ℕ

-- A write through a `SessionPtr`.
unfoldable pub update_session_at : ℕ → (Session → Session) → Ssmgr → Ssmgr
update_session_at sid f m = record m { store = λ j. if sid == j then f (m.store j) else m.store j }

unfoldable pub has_session : ℕ → Ssmgr → Bool
has_session uid m = contains uid m.m_uid2session

unfoldable pub find_session : ℕ → Ssmgr → Option ℕ
find_session uid m = lookup uid m.m_uid2session

unfoldable pub get_session_count : Ssmgr → ℕ
get_session_count m = length m.m_uid2session

-- `accept`: a session with a new handle.
unfoldable pub accept : ℕ → Ssmgr → Ssmgr
accept sid m =
    let m1 = update_session_at sid (λ _. new_session) m in
    record m1 { m_sessions = m1.m_sessions ++ sid ∷ [] }

-- `Session::attach` with the callback that `accept` sets, `Ssmgr::on_attach`.
unfoldable pub attach_session : ℕ → ℕ → String → String → Ssmgr → Outcome Ssmgr
attach_session sid uid name email m = do
  ss ← attach uid name email (m.store sid)
  assert_that (not (contains uid m.m_uid2session))
  let m1 = update_session_at sid (λ _. ss) m
  ok (record m1 { m_uid2session = insert uid sid m1.m_uid2session })

-- `m_sessions[i] = m_sessions.back(); m_sessions.pop_back();`
unfoldable pub swap_remove : ℕ → List ℕ → List ℕ
swap_remove i sids = elim (pop_back sids) [ none ↦ [] | some (last, rest) ↦ set rest i last ]

unfoldable pub drop_uid : Option ℕ → List (ℕ × ℕ) → List (ℕ × ℕ)
drop_uid none uids = uids
drop_uid (some uid) uids = erase uid uids

-- `on_disconnect` up to the event; whether it is sent stands beside the new state.
unfoldable pub on_disconnect : ℕ → Ssmgr → Bool × Ssmgr
unfolding drop_uid
on_disconnect sid m = elim (index_of sid m.m_sessions) [
  | none ↦ (false, m)
  | some i ↦ (
    true,
    record m {
      m_uid2session = drop_uid (m.store sid).uid m.m_uid2session;
      m_sessions = swap_remove i m.m_sessions;
    },
  )
]

-- `ss->state() >= Session::State::logged`
unfoldable pub is_in_lobby : SessionState → Bool
is_in_lobby SessionState.connected = false
is_in_lobby SessionState.authed = false
is_in_lobby SessionState.create_role = false
is_in_lobby SessionState.create_role_wait = false
is_in_lobby SessionState.logged = true
is_in_lobby SessionState.gaming = true

-- `SESSION_SAVE_DURATION`, in microseconds
abbrev pub session_save_duration : ℕ
session_save_duration = 5 * 60 * 1000

unfoldable pub is_due : ℤ → Session → Bool
is_due now ss =
    is_in_lobby ss.state
    && ss.dirty
    && leb_ℤ (pos session_save_duration) (sub_time now ss.last_save_time)

-- `update_session`; the handles of the sessions that are saved stand beside the state.
unfoldable pub update_session : ℤ → ℕ → List ℕ × Ssmgr → List ℕ × Ssmgr
update_session now sid (saved, m) =
    if is_due now (m.store sid)
    then (saved ++ sid ∷ [], update_session_at sid (set_undirty now) m)
    else (saved, m)

-- `m_iter >= m_sessions.size()` sets it back.
unfoldable pub wrap_iter : ℕ → ℕ → ℕ
wrap_iter n i = if leb n i then 0 else i

-- One round less of the loop, or its end when it is back where it began.
unfoldable pub update_loop : ℤ → ℕ → ℕ → List ℕ × Ssmgr → Outcome (List ℕ × Ssmgr)
update_loop now begin zero st = ok st
update_loop now begin (suc k) st = do
  sid ← in_range (get_elem? st.1.m_sessions st.1.m_iter)
  let st1 = update_session now sid st
  let m1 = st1.1
  let i = wrap_iter (length m1.m_sessions) (suc m1.m_iter)
  let st2 : List ℕ × Ssmgr = (st1.0, record m1 { m_iter = i })
  let rest = update_loop now begin k st2
  if i == begin then ok st2 else rest

-- `std::max((size_t)1, m_sessions.size() / SESSION_ITER_COUNT)`
unfoldable pub iter_count : ℕ → ℕ
iter_count n = if leb 1 (n / 10) then n / 10 else 1

unfoldable pub update : ℤ → Ssmgr → Outcome (List ℕ × Ssmgr)
update now m =
    let n = length m.m_sessions in
    let i = wrap_iter n m.m_iter in
    if n == 0 then ok ([], m) else update_loop now i (iter_count n) ([], record m { m_iter = i })
