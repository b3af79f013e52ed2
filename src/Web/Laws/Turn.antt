-- ===== src/Web/Laws/Turn.antt =====
-- A turn of the server of src/core/server.cpp: the worker does a task, and the main loop runs the
-- callback.
use uno_server.Common.{ℕ, suc, Bool, false, List, [], ◌≡◌, refl, ap, Outcome, ok, fault}
use uno_server.Queue.Background.{BackResult, exception, submit, back_task, run_popped, do_task}
use uno_server.Queue.ThreadQue.{push, is_empty, empty, take, try_pop, may_return, pop}
use uno_server.Account.Tables.{Db, Query}
use uno_server.Account.Agent.{DbValue, as_task}
use uno_server.Web.Types.{WebLibrary, Callback, Answer, Web}
use uno_server.Web.Register.{
  run_callback, handle_popped, handle_one, handle_rounds, background_handler,
}

-- No task and no callback waits, and the worker was not stopped.
unfoldable pub at_rest : Bool → ℕ → Db → List Answer → Web
at_rest running signals db answers = record {
  bg = record {
    m_task_que = record { m_que = []; m_done = false };
    m_cb_que = record { m_que = []; m_done = false };
    m_running = running;
    signals = signals;
    shared = ok db;
  };
  answers = answers;
}

-- The worker's `do_task` and the main loop's handler.
unfoldable pub turn : WebLibrary → Web → Web
unfolding do_task background_handler
turn lib w = background_handler lib (record w { bg = do_task w.bg })

unfoldable pub submitted : Query DbValue → Callback → Web → Web
unfolding submit as_task
submitted q callback w = record w {
  bg = submit (record { task = as_task q; callback = callback }) w.bg;
}

-- A turn with one task that returns or throws.
pub turn-submitted :
    (lib : WebLibrary) (q : Query DbValue) (callback : Callback) (running : Bool) (signals : ℕ)
    (db : Db) (answers : List Answer) (r : BackResult DbValue) (db1 : Db)
    → q db ≡ ok (r, db1)
    → turn lib (submitted q callback (at_rest running signals db answers))
      ≡ run_callback lib callback r (at_rest running (suc signals) db1 answers)
unfolding turn submitted at_rest submit as_task back_task run_popped do_task push is_empty empty
    take try_pop may_return pop handle_popped handle_one handle_rounds background_handler
turn-submitted lib q callback running signals db answers r db1 h = ap after h
  where
    result : Outcome (BackResult DbValue × Db) → BackResult DbValue × Outcome Db
    result o = elim o [ fault e ↦ (exception, fault e) | ok (s, db2) ↦ (s, ok db2) ]

    after : Outcome (BackResult DbValue × Db) → Web
    after o = run_callback lib callback (result o).0 (record {
      bg = record {
        m_task_que = record { m_que = []; m_done = false };
        m_cb_que = record { m_que = []; m_done = false };
        m_running = running;
        signals = suc signals;
        shared = (result o).1;
      };
      answers = answers;
    })

-- A turn without a task.
pub turn-at_rest :
    (lib : WebLibrary) (running : Bool) (signals : ℕ) (db : Db) (answers : List Answer)
    → turn lib (at_rest running signals db answers) ≡ at_rest running signals db answers
unfolding turn at_rest do_task may_return empty is_empty background_handler handle_rounds
turn-at_rest lib running signals db answers = refl
