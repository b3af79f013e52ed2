-- ===== src/Session/Laws/Saving.antt =====
-- The automatic save in `Ssmgr::update` of src/core/ssmgr.h.
use uno_server.Common.{
  ℕ, zero, suc, ◌<◌, ◌≡◌, refl, Bool, true, false, ◌&&◌, List, [], arith, ◌==◌, pos, ◌-ℤ◌, leb_ℤ,
  length, get_elem?_in_range, ok, Bool-cases, inl, inr,
}
use uno_server.Session.Types.{Session, time_min, sub_time, wrap_int64}
use uno_server.Session.Ssmgr.{
  Ssmgr, is_in_lobby, is_due, update_session, wrap_iter, update_loop, iter_count, update,
}
use uno_server.Session.Laws.Round.{wrap_iter_lt}

-- The time since the start of the clock wraps around to the past.
since_min :
    (t : ℕ) → t < 9223372036854775808 → leb_ℤ (pos 300000) (sub_time (pos t) time_min) ≡ false
unfolding sub_time wrap_int64 ◌-ℤ◌
since_min t h = ground arith

and_false : (a b c : Bool) → c ≡ false → (a && b && c) ≡ false
and_false true true c e = e
and_false true false c e = refl
and_false false b c e = refl

never_due :
    (t : ℕ) (ss : Session)
    → t < 9223372036854775808
    → ss.last_save_time ≡ time_min
    → is_due (pos t) ss ≡ false
unfolding is_due
never_due t ss h e =
    let late : leb_ℤ (pos 300000) (sub_time (pos t) ss.last_save_time) ≡ false =
      rw e (since_min t h) in
    and_false (is_in_lobby ss.state) ss.dirty _ late

not_saved :
    (t sid : ℕ) (saved : List ℕ) (m : Ssmgr)
    → is_due (pos t) (m.store sid) ≡ false
    → update_session (pos t) sid (saved, m) ≡ (saved, m)
unfolding update_session
not_saved t sid saved m e = rw e refl

update_loop-none :
    (t begin k : ℕ) (m : Ssmgr)
    → ((j : ℕ) → is_due (pos t) (m.store j) ≡ false)
    → m.m_iter < length m.m_sessions
    → (i : ℕ) × (update_loop (pos t) begin k ([], m) ≡ ok ([], record m { m_iter = i }))
unfolding update_loop
update_loop-none t begin zero m never h = (m.m_iter, refl)
update_loop-none t begin (suc k) m never h =
    let (sid, e) = get_elem?_in_range m.m_sessions m.m_iter h in
    let same = not_saved t sid [] m (never sid) in
    let i = wrap_iter (length m.m_sessions) (suc m.m_iter) in
    let fits : i < length m.m_sessions =
      wrap_iter_lt (length m.m_sessions) (suc m.m_iter) (omega arith) in
    elim (Bool-cases (i == begin)) [
      | inl stop ↦ (i, rw e (rw same (rw stop refl)))
      | inr go ↦
          let (j, done) = update_loop-none t begin k (record m { m_iter = i }) never fits in
          (j, rw e (rw same (rw go done)))
    ]

-- As long as no session was saved before, no tick of the session manager saves one, however long
-- ago it became dirty: nothing is saved and every session stays as it is, so that this holds for
-- the next tick as well.
pub update-never :
    (t : ℕ) (m : Ssmgr)
    → t < 9223372036854775808
    → ((j : ℕ) → (m.store j).last_save_time ≡ time_min)
    → (i : ℕ) × (update (pos t) m ≡ ok ([], record m { m_iter = i }))
unfolding update
update-never t m h unsaved = elim (Bool-cases (length m.m_sessions == 0)) [
  | inl e ↦ (m.m_iter, rw e refl)
  | inr e ↦
      let n = length m.m_sessions in
      let i = wrap_iter n m.m_iter in
      let fits : i < n = wrap_iter_lt n m.m_iter (ground arith) in
      let (j, done) =
        update_loop-none t i (iter_count n) (record m { m_iter = i })
          (λ k. never_due t (m.store k) h (unsaved k)) fits in
      (j, rw e done)
]
