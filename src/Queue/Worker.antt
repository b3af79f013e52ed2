-- ===== src/Queue/Worker.antt =====
-- The tasks of `Background` in src/core/background.cpp are run one after the other, each once.
use uno_server.Common.{
  ℕ, suc, ◌+◌, ◌≡◌, refl, sym, ap, ◌∙◌, Bool, true, false, List, [], ◌∷◌, ◌++◌, arith, length,
  if◌then◌else◌,
}
use mathlib.Core.Path.{subst}
use mathlib.Core.List.{append-nil, append_assoc}
use uno_server.Queue.ThreadQue.{push, take, pop, empty, is_empty, may_return}
use uno_server.Queue.Background.{
  BackResult, Task, Background, back_task, run_popped, do_task, thread_loop,
}

module _ {S A C : Type 0} where
  -- What a list of tasks gives, and what it leaves of that which the tasks share.
  pub results : List (Task S A C) → S → List (C × BackResult A) × S
  results [] shared = ([], shared)
  results (t ∷ ts) shared =
      let r = t.task shared in let rest = results ts r.1 in ((t.callback, r.0) ∷ rest.0, rest.1)

  -- A worker that has run those tasks.
  pub record Done (ts : List (Task S A C)) (b b' : Background S A C) : Type 0 where
    pub no_task : b'.m_task_que.m_que ≡ []
    pub called : b'.m_cb_que.m_que ≡ b.m_cb_que.m_que ++ (results ts b.shared).0
    pub shared : b'.shared ≡ (results ts b.shared).1
    pub signalled : b'.signals ≡ b.signals + length ts
    pub running : b'.m_running ≡ true

  -- One round: the first task is run.
  do_task-first :
      (b : Background S A C) (t : Task S A C) (ts : List (Task S A C))
      → b.m_task_que.m_que ≡ t ∷ ts
      → b.m_task_que.m_done ≡ false
      → do_task b ≡ back_task t (record b { m_task_que = record { m_que = ts; m_done = false } })
  unfolding do_task run_popped pop take may_return empty is_empty
  do_task-first b t ts e d = rw (e, d) refl

  thread_loop-first :
      (n : ℕ) (b b1 : Background S A C)
      → b.m_running ≡ true
      → do_task b ≡ b1
      → thread_loop (suc n) b ≡ thread_loop n b1
  unfolding thread_loop
  thread_loop-first n b b1 r e =
      ap (λ (x : Bool). if x then thread_loop n (do_task b) else b) r ∙ ap (thread_loop n) e

  run_all :
      (ts : List (Task S A C)) (b : Background S A C)
      → b.m_task_que.m_que ≡ ts
      → b.m_task_que.m_done ≡ false
      → b.m_running ≡ true
      → Done ts b (thread_loop (length ts) b)
  unfolding thread_loop back_task push results
  run_all [] b e d r = record {
    no_task = e;
    called = sym (append-nil b.m_cb_que.m_que);
    shared = refl;
    signalled = omega arith;
    running = r;
  }
  run_all (t ∷ ts) b e d r =
      let b1 = back_task t (record b { m_task_que = record { m_que = ts; m_done = false } }) in
      let i = run_all ts b1 refl refl r in
      subst (Done (t ∷ ts) b)
        (sym (thread_loop-first (length ts) b b1 r (do_task-first b t ts e d)))
        (record {
          no_task = i.no_task;
          called =
              i.called
              ∙ append_assoc b.m_cb_que.m_que ((t.callback, (t.task b.shared).0) ∷ [])
                  (results ts b1.shared).0;
          shared = i.shared;
          signalled = let n = i.signalled in omega arith;
          running = i.running;
        })

  -- A worker that runs, with a queue that is not stopped, has after as many rounds as there are tasks
  -- run each of them once, in the order of the queue: the main loop's queue has got each callback
  -- with its own task's result, exceptions included, behind what it held before, with one signal
  -- for each, and no task is left.
  pub thread_loop-Done :
      (b : Background S A C)
      → b.m_running ≡ true
      → b.m_task_que.m_done ≡ false
      → Done b.m_task_que.m_que b (thread_loop (length b.m_task_que.m_que) b)
  thread_loop-Done b r d = run_all b.m_task_que.m_que b refl d r
