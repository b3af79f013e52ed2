-- ===== src/Queue/Background.antt =====
-- `class Background` of src/core/background.h and background.cpp: a thread that runs tasks and hands
-- their results to the main loop.
use uno_server.Common.{ℕ, zero, suc, Bool, true, false, Option, none, some, if◌then◌else◌}
use uno_server.Queue.ThreadQue.{ThreadQue, push, try_pop, pop, may_return, stop}

-- `BackResult`: a value, or an exception.
pub data BackResult (T : Type 0) : Type 0 where
  value : T → BackResult T
  exception : BackResult T

-- A task works on something that the tasks share, the database here; its callback stands beside it.
pub record Task (S A C : Type 0) : Type 0 where
  pub task : S → BackResult A × S
  pub callback : C

pub record Background (S A C : Type 0) : Type 0 where
  pub m_task_que : ThreadQue (Task S A C)
  -- the main loop's queue: the callbacks with what they are called with
  pub m_cb_que : ThreadQue (C × BackResult A)
  pub m_running : Bool
  -- how often `uv_async_send` was called
  pub signals : ℕ
  pub shared : S

module _ {S A C : Type 0} where
  unfoldable pub submit : Task S A C → Background S A C → Background S A C
  submit t b = record b { m_task_que = push t b.m_task_que }

  -- What `submit` wraps a task in: its result goes to the main loop, an exception as well.
  unfoldable pub back_task : Task S A C → Background S A C → Background S A C
  back_task t b =
      let result = t.task b.shared in
      record b {
        m_cb_que = push (t.callback, result.0) b.m_cb_que;
        signals = suc b.signals;
        shared = result.1;
      }

  unfoldable pub run_popped :
      Option (Task S A C) × ThreadQue (Task S A C) → Background S A C → Bool × Background S A C
  run_popped (none, q) b = (false, record b { m_task_que = q })
  run_popped (some t, q) b = (true, back_task t (record b { m_task_que = q }))

  unfoldable pub try_do_task : Background S A C → Bool × Background S A C
  try_do_task b = run_popped (try_pop b.m_task_que) b

  -- Nothing happens while `pop` waits.
  unfoldable pub do_task : Background S A C → Background S A C
  do_task b =
      let done = (run_popped (pop b.m_task_que) b).1 in if may_return b.m_task_que then done else b

  -- `while (m_running) { do_task(); }`, so many rounds of it.
  unfoldable pub thread_loop : ℕ → Background S A C → Background S A C
  thread_loop zero b = b
  thread_loop (suc n) b = let rest = thread_loop n (do_task b) in if b.m_running then rest else b

  unfoldable pub start : Background S A C → Background S A C
  start b = record b { m_running = true }

  unfoldable pub stop_worker : Background S A C → Background S A C
  stop_worker b =
      if b.m_running then record b { m_running = false; m_task_que = stop b.m_task_que } else b
