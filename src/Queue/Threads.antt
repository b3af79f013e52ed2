-- ===== src/Queue/Threads.antt =====
-- The threads at a queue of src/core/ThreadQue.h. One at most calls `pop`, again and again: the worker
-- of src/core/background.cpp at the queue of the tasks, and none at the main loop's queue, which
-- src/core/server.h empties by `try_pop`. Any others push, try to pop and stop. A step is what a
-- thread does between two points at which another may come in. `push` and `try_pop` hold the lock,
-- `stop` does not.
use uno_server.Common.{true, false, Option, none, some, List, [], ◌∷◌, ◌++◌, ◌≡◌, ◌≢◌}
use uno_server.Queue.ThreadQue.{ThreadQue, push, try_pop, may_return, pop, stop}

-- Where the popping thread is: about to test the condition, between the test and the sleep with the
-- lock held, or asleep.
pub data Place : Type 0 where
  testing holding asleep : Place

-- `accepted` and `returned` record what has gone in and come out.
pub record Machine (T : Type 0) : Type 0 where
  pub queue : ThreadQue T
  pub place : Place
  pub accepted : List T
  pub returned : List T

-- `m_cond.notify_one()`
unfoldable pub notify : Place → Place
notify Place.testing = Place.testing
notify Place.holding = Place.holding
notify Place.asleep = Place.testing

module _ {T : Type 0} where
  unfoldable pub add : List T → Option T → List T
  add xs none = xs
  add xs (some x) = xs ++ x ∷ []

  unfoldable pub pushed : T → Machine T → Machine T
  pushed v m = record m {
    queue = push v m.queue;
    place = notify m.place;
    accepted = m.accepted ++ v ∷ [];
  }

  unfoldable pub stopped : Machine T → Machine T
  stopped m = record m { queue = stop m.queue; place = notify m.place }

  unfoldable pub at : Place → Machine T → Machine T
  at place m = record m { place = place }

  unfoldable pub popped : Machine T → Machine T
  popped m = let r = pop m.queue in record m { queue = r.1; returned = add m.returned r.0 }

  unfoldable pub tried : Machine T → Machine T
  tried m = let r = try_pop m.queue in record m { queue = r.1; returned = add m.returned r.0 }

-- The steps of the other threads.
pub data OtherStep {T : Type 0} (m m' : Machine T) : Type 0 where
  pushes : (v : T) → m.place ≢ Place.holding → m' ≡ pushed v m → OtherStep m m'
  tries : m.place ≢ Place.holding → m' ≡ tried m → OtherStep m m'
  stops : m' ≡ stopped m → OtherStep m m'

-- The steps of the popping thread.
pub data PopStep {T : Type 0} (m m' : Machine T) : Type 0 where
  tests :
      m.place ≡ Place.testing → may_return m.queue ≡ false → m' ≡ at Place.holding m → PopStep m m'
  sleeps : m.place ≡ Place.holding → m' ≡ at Place.asleep m → PopStep m m'
  returns : m.place ≡ Place.testing → may_return m.queue ≡ true → m' ≡ popped m → PopStep m m'

pub data Step {T : Type 0} (m m' : Machine T) : Type 0 where
  other : OtherStep m m' → Step m m'
  popping : PopStep m m' → Step m m'
  -- a wait may end by itself
  wakes : m.place ≡ Place.asleep → m' ≡ at Place.testing m → Step m m'

pub data Runs {T : Type 0} (m : Machine T) : Machine T → Type 0 where
  here : Runs m m
  runs_on : {m1 m2 : Machine T} → Runs m m1 → Step m1 m2 → Runs m m2

abbrev pub fresh : (T : Type 0) → Machine T
fresh T = record {
  queue = record { m_que = []; m_done = false };
  place = Place.testing;
  accepted = [];
  returned = [];
}
