-- ===== src/Tests/Sessions.antt =====
-- Theorems on the sessions, the lobby and the queue, at small values.

use uno_server.Common.{
  suc, Bool-cases, inl, inr, false, ℕ, ◌+◌, ◌<◌, ◌≡◌, ◌≢◌, ◌⊎◌, refl, true, some, List, [], ◌∷◌,
  ◌++◌, arith, ◌==◌, if◌then◌else◌, pos, lookup, length, index_of, ok,
}
use uno_server.Session.Types.{time_min, Session, SessionState, new_session}
use uno_server.Session.Ssmgr.{Ssmgr, find_session, on_disconnect, update}
use uno_server.Session.Laws.Round.{update-IsRound}
use uno_server.Session.Laws.Removal.{times, on_disconnect_lem}
use uno_server.Lobby.Types.{DbCall, Payload, Library, Lobby}
use uno_server.Lobby.Requests.{check_nick, create_role_req, login_req}
use uno_server.Queue.Background.{value, exception, Background, thread_loop}
use uno_server.Queue.Worker.{Done, thread_loop-Done}
use uno_server.Session.Laws.Saving.{update-never}
use uno_server.Lobby.Answers.{created, create_role_rsp}
use uno_server.Lobby.Laws.Login.{Distinct, IsSsmgr, LoggedIn, login_req-LoggedIn}
use uno_server.Lobby.Laws.Creation.{Created, create_role_req-Created}
use uno_server.Queue.ThreadQue.{may_return, empty, is_empty, push}
use uno_server.Queue.Threads.{
  Place, notify, Machine, PopStep, Step, other, popping, pushes, tries, returns, Runs, here,
  runs_on, pushed, popped, tried, fresh,
}
use uno_server.Queue.Fifo.{Allows, abstract_of, act_of}
use uno_server.Queue.Laws.{InOrder, Step-Fifo, Runs-InOrder, stop-lost}

-- User 7 has chosen no nick yet; session 2 has just connected.
abbrev choosing : Session
choosing = record new_session { uid = some 7; state = SessionState.create_role }

abbrev sessions : Ssmgr
sessions = record {
  store = λ sid. if sid == 1 then choosing else new_session;
  m_sessions = 1 ∷ 2 ∷ [];
  m_uid2session = (7, 1) ∷ [];
  m_iter = 4;
}

update-IsRound_example :
    (out : List ℕ) × (m' : Ssmgr) × (update (pos 3) sessions ≡ ok (out, m'))
    × (m'.m_sessions ≡ sessions.m_sessions)
    × (m'.m_uid2session ≡ sessions.m_uid2session)
    × ((length sessions.m_sessions ≡ 0) ⊎ (m'.m_iter < length sessions.m_sessions))
update-IsRound_example = update-IsRound (pos 3) sessions

on_disconnect_lem_example :
    let r = on_disconnect 1 sessions in
    (r.0 ≡ true)
    × (r.1.store ≡ sessions.store)
    × (length r.1.m_sessions + 1 ≡ length sessions.m_sessions)
    × ((a : ℕ) → times a r.1.m_sessions + (if 1 == a then 1 else 0) ≡ times a sessions.m_sessions)
    × ((u : ℕ)
        → (sessions.store 1).uid ≢ some u
        → lookup u r.1.m_uid2session ≡ lookup u sessions.m_uid2session)
on_disconnect_lem_example = on_disconnect_lem sessions 1 0 refl

abbrev lobby : Lobby
lobby = record { ssmgr = sessions; said = []; calls = [] }

abbrev payload : Payload
payload = record { uid = 7; username = "name"; email = "email" }

-- Every token is good, and every nick.
abbrev library : Library
library = record {
  verify = λ token. some payload;
  sign = λ uid name email. "token";
  bytes = λ s. 5;
  matches = λ s. true;
}

sessions-present :
    (uid sid : ℕ)
    → lookup uid sessions.m_uid2session ≡ some sid
    → (i : ℕ) × (index_of sid sessions.m_sessions ≡ some i) × ((sessions.store sid).uid ≡ some uid)
sessions-present uid sid e =
    let p : uid ≡ 7 = ground arith in
    let q : sid ≡ 1 = ground arith in (0, rw q refl, rw (p, q) refl)

sessions-IsSsmgr : IsSsmgr sessions
unfolding Distinct
sessions-IsSsmgr = record { distinct = (refl, tt); present = sessions-present }

-- The second session logs in as the user of the first.
login_req-LoggedIn_example :
    (l' : Lobby) × (login_req library 2 "token" lobby ≡ ok l') × LoggedIn lobby 2 7 l'
login_req-LoggedIn_example =
    login_req-LoggedIn library lobby 2 "token" payload sessions-IsSsmgr refl refl refl

create_role_req-Created_example :
    let l1 = create_role_req library 1 "nick" lobby in
    ((l1.ssmgr.store 1).state ≡ SessionState.create_role_wait)
    × (l1.calls ≡ [] ++ DbCall.create_role_req (some 7) "nick" ∷ [])
    × Created (value true) l1 1 7 (create_role_rsp (created (value true)) 7 l1)
unfolding check_nick find_session
create_role_req-Created_example =
    create_role_req-Created library lobby 1 7 "nick" (value true) refl refl refl

-- One value pushed and popped, and one more pushed and tried for.
abbrev one : Machine ℕ
one = pushed 4 (fresh ℕ)

abbrev none_left : Machine ℕ
none_left = popped one

abbrev one_more : Machine ℕ
one_more = pushed 5 none_left

push-Step : Step (fresh ℕ) one
push-Step = other (pushes 4 (λ e. absurd (cc)) refl)

pop-Step : Step one none_left
unfolding pushed may_return empty is_empty push notify
pop-Step = popping (returns refl refl refl)

push_more-Step : Step none_left one_more
unfolding pushed popped notify
push_more-Step = other (pushes 5 (λ e. absurd (cc)) refl)

try-Step : Step one_more (tried one_more)
unfolding pushed popped notify
try-Step = other (tries (λ e. absurd (cc)) refl)

Step-Fifo_example : Allows (act_of try-Step) (abstract_of one_more) (abstract_of (tried one_more))
Step-Fifo_example = Step-Fifo {m = one_more} {m' = tried one_more} try-Step

Runs-InOrder_example : InOrder (tried one_more)
Runs-InOrder_example =
    Runs-InOrder
      (runs_on (runs_on (runs_on (runs_on here push-Step) pop-Step) push_more-Step) try-Step)

stop-lost_example :
    (m' : Machine ℕ) × Runs (fresh ℕ) m'
    × (m'.queue.m_done ≡ true)
    × (m'.place ≡ Place.asleep)
    × ((m2 : Machine ℕ) → PopStep m' m2 → ⊥)
stop-lost_example = stop-lost (fresh ℕ) refl refl refl

sessions-unsaved : (j : ℕ) → (sessions.store j).last_save_time ≡ time_min
sessions-unsaved j = elim (Bool-cases (j == 1)) [ inl e ↦ rw e refl | inr e ↦ rw e refl ]

update-never_example :
    (i : ℕ) × (update (pos 1000000) sessions ≡ ok ([], record sessions { m_iter = i }))
update-never_example = update-never 1000000 sessions (omega arith) sessions-unsaved

-- A task that counts, and one that throws.
abbrev worker : Background ℕ ℕ ℕ
worker = record {
  m_task_que = record {
    m_que =
        record { task = λ n. (value n, suc n); callback = 5 }
        ∷ record { task = λ n. (exception, n); callback = 6 }
        ∷ [];
    m_done = false;
  };
  m_cb_que = record { m_que = []; m_done = false };
  m_running = true;
  signals = 0;
  shared = 3;
}

thread_loop-Done_example :
    Done worker.m_task_que.m_que worker (thread_loop (length worker.m_task_que.m_que) worker)
thread_loop-Done_example = thread_loop-Done worker refl refl
