-- ===== src/Queue/Fifo.antt =====
-- What src/core/ThreadQue.h promises: a first-in first-out queue that may be closed.
use uno_server.Common.{Bool, true, false, List, [], ◌∷◌, ◌++◌, ◌≡◌, ◌⊎◌, if◌then◌else◌}
use uno_server.Queue.Threads.{
  Machine, pushes, tries, stops, tests, sleeps, returns, Step, other, popping, wakes,
}

-- What waits, what has come out, and whether the queue is closed.
pub record Fifo (T : Type 0) : Type 0 where
  pub waits : List T
  pub out : List T
  pub closed : Bool

pub data Act (T : Type 0) : Type 0 where
  rest close give_up dequeue try_dequeue : Act T
  enqueue : T → Act T

module _ {T : Type 0} where
  -- The first value comes out.
  abbrev pub Leaves : Fifo T → Fifo T → Type 0
  Leaves q q' =
      (v : T) × (l : List T) × (q.waits ≡ v ∷ l)
      × (q' ≡ record q { waits = l; out = q.out ++ v ∷ [] })

  -- A closed queue is given up whatever waits in it; an open one gives its first value to those who
  -- wait for it, and those who only try get it if there is one.
  unfoldable pub Allows : Act T → Fifo T → Fifo T → Type 0
  Allows Act.rest q q' = q' ≡ q
  Allows Act.close q q' = q' ≡ record q { closed = true }
  Allows Act.give_up q q' = (q.closed ≡ true) × (q' ≡ q)
  Allows Act.dequeue q q' = (q.closed ≡ false) × Leaves q q'
  Allows Act.try_dequeue q q' = ((q.waits ≡ []) × (q' ≡ q)) ⊎ Leaves q q'
  Allows (Act.enqueue v) q q' = q' ≡ record q { waits = q.waits ++ v ∷ [] }

  unfoldable pub abstract_of : Machine T → Fifo T
  abstract_of m = record { waits = m.queue.m_que; out = m.returned; closed = m.queue.m_done }

  -- What a step stands for.
  unfoldable pub act_of : {m m' : Machine T} → Step m m' → Act T
  act_of (other (pushes v free e)) = Act.enqueue v
  act_of (other (tries free e)) = Act.try_dequeue
  act_of (other (stops e)) = Act.close
  act_of (popping (tests p c e)) = Act.rest
  act_of (popping (sleeps p e)) = Act.rest
  act_of {m} (popping (returns p c e)) = if m.queue.m_done then Act.give_up else Act.dequeue
  act_of (wakes p e) = Act.rest
