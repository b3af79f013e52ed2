-- ===== src/Queue/Laws.antt =====
-- What holds of the queue of src/core/ThreadQue.h and the threads at it.
use uno_server.Common.{
  ◌⊎◌, if◌then◌else◌, ◌≡◌, refl, sym, ap, ◌∙◌, Bool, true, false, List, [], ◌∷◌, ◌++◌, inl, inr,
  Bool-cases,
}
use mathlib.Core.Path.{subst}
use mathlib.Core.List.{append_assoc}
use uno_server.Queue.ThreadQue.{push, is_empty, empty, take, try_pop, may_return, pop, stop}
use uno_server.Queue.Fifo.{Act, Leaves, Allows, abstract_of, act_of}
use uno_server.Queue.Threads.{
  Place, Machine, notify, add, pushed, stopped, at, popped, tried, pushes, tries, stops, PopStep,
  tests, sleeps, returns, Step, other, popping, wakes, Runs, here, runs_on, fresh,
}

que-cases : {T : Type 0} (xs : List T) → (xs ≡ []) ⊎ ((x : T) × (l : List T) × (xs ≡ x ∷ l))
que-cases [] = inl refl
que-cases (x ∷ xs) = inr (x, xs, refl)

module _ {T : Type 0} where
  abbrev Simulates : Act T → Machine T → Machine T → Type 0
  Simulates a m m' = Allows a (abstract_of m) (abstract_of m')

  take-Leaves :
      (m : Machine T) (x : T) (xs : List T)
      → m.queue.m_que ≡ x ∷ xs
      → Leaves (abstract_of m) (abstract_of (tried m))
  unfolding abstract_of tried try_pop take add
  take-Leaves m x xs e = (x, xs, e, rw e refl)

  tried-Simulates : (m : Machine T) → Simulates Act.try_dequeue m (tried m)
  unfolding Allows abstract_of tried try_pop take add
  tried-Simulates m = elim (que-cases m.queue.m_que) [
    | inl e ↦ inl (e, rw e refl)
    | inr (x, xs, e) ↦ inr (take-Leaves m x xs e)
  ]

  popped-Simulates :
      (m : Machine T)
      → may_return m.queue ≡ true
      → Simulates (if m.queue.m_done then Act.give_up else Act.dequeue) m (popped m)
  unfolding Allows abstract_of popped pop take add may_return empty is_empty
  popped-Simulates m c = elim (Bool-cases m.queue.m_done) [
    | inl d ↦ rw d (refl, refl)
    | inr d ↦ elim (que-cases m.queue.m_que) [
      | inl e ↦ absurd (cc (rw (e, d) at c))
      | inr (x, xs, e) ↦ rw d (refl, (x, xs, e, rw e refl))
    ]
  ]

  -- Every step at a queue, by the thread that waits in `pop` or by any of those that push, try to pop
  -- and stop, does what that step stands for with a first-in first-out queue: a push puts its value
  -- behind the others; a `pop` that returns takes the first value, or gives up a stopped queue; a
  -- `try_pop` takes the first value if there is one; a stop closes the queue; and no other step changes
  -- what waits, what has come out or whether the queue is stopped.
  pub Step-Fifo :
      {m m' : Machine T} (step : Step m m') → Allows (act_of step) (abstract_of m) (abstract_of m')
  unfolding Allows act_of abstract_of pushed stopped at push stop
  Step-Fifo {m} {m'} (other (pushes v free e)) = subst (Simulates (Act.enqueue v) m) (sym e) refl
  Step-Fifo {m} {m'} (other (tries free e)) =
      subst (Simulates Act.try_dequeue m) (sym e) (tried-Simulates m)
  Step-Fifo {m} {m'} (other (stops e)) = subst (Simulates Act.close m) (sym e) refl
  Step-Fifo {m} {m'} (popping (tests p c e)) = subst (Simulates Act.rest m) (sym e) refl
  Step-Fifo {m} {m'} (popping (sleeps p e)) = subst (Simulates Act.rest m) (sym e) refl
  Step-Fifo {m} {m'} (popping (returns p c e)) =
      subst (Simulates (if m.queue.m_done then Act.give_up else Act.dequeue) m) (sym e)
        (popped-Simulates m c)
  Step-Fifo {m} {m'} (wakes p e) = subst (Simulates Act.rest m) (sym e) refl

  -- What has come out and what still waits is what went in, in that order.
  abbrev pub InOrder : Machine T → Type 0
  InOrder m = m.returned ++ m.queue.m_que ≡ m.accepted

  take-order :
      (done : Bool) (que out : List T)
      → add out (take done que).0 ++ (take done que).1.m_que ≡ out ++ que
  unfolding take add
  take-order done [] out = refl
  take-order done (x ∷ xs) out = append_assoc out (x ∷ []) xs

  popped-InOrder : (m : Machine T) → InOrder m → InOrder (popped m)
  unfolding popped pop add
  popped-InOrder m h = elim (Bool-cases m.queue.m_done) [
    | inl e ↦ rw e h
    | inr e ↦ rw e (take-order false m.queue.m_que m.returned ∙ h)
  ]

  tried-InOrder : (m : Machine T) → InOrder m → InOrder (tried m)
  unfolding tried try_pop
  tried-InOrder m h = take-order m.queue.m_done m.queue.m_que m.returned ∙ h

  Step-InOrder : {m m' : Machine T} → Step m m' → InOrder m → InOrder m'
  unfolding pushed stopped at push stop
  Step-InOrder {m} {m'} (other (pushes v free e)) h =
      subst InOrder (sym e)
        (sym (append_assoc m.returned m.queue.m_que (v ∷ [])) ∙ ap (λ (l : List T). l ++ v ∷ []) h)
  Step-InOrder {m} {m'} (other (tries free e)) h = subst InOrder (sym e) (tried-InOrder m h)
  Step-InOrder {m} {m'} (other (stops e)) h = subst InOrder (sym e) h
  Step-InOrder {m} {m'} (popping (tests p c e)) h = subst InOrder (sym e) h
  Step-InOrder {m} {m'} (popping (sleeps p e)) h = subst InOrder (sym e) h
  Step-InOrder {m} {m'} (popping (returns p c e)) h = subst InOrder (sym e) (popped-InOrder m h)
  Step-InOrder {m} {m'} (wakes p e) h = subst InOrder (sym e) h

  -- However the steps of the threads at a queue follow one another, of the one that waits in `pop` and
  -- of any others that push, try to pop and stop, the values come out in the order in which they went
  -- in: those that `pop` and `try_pop` have returned so far, in the order of these calls, followed by
  -- those in the queue, are those pushed.
  pub Runs-InOrder : {m : Machine T} → Runs (fresh T) m → InOrder m
  Runs-InOrder here = refl
  Runs-InOrder (runs_on runs step) = Step-InOrder step (Runs-InOrder runs)

  asleep-PopStep : (m m' : Machine T) → m.place ≡ Place.asleep → PopStep m m' → ⊥
  asleep-PopStep m m' q (tests p c e) = absurd (cc)
  asleep-PopStep m m' q (sleeps p e) = absurd (cc)
  asleep-PopStep m m' q (returns p c e) = absurd (cc)

  -- A stop that comes between the test of an empty queue and the sleep is lost: the threads get from
  -- there to a place where the queue is stopped, the popping thread sleeps, and no step of its own
  -- brings it back.
  pub stop-lost :
      (m : Machine T)
      → m.place ≡ Place.testing
      → m.queue.m_que ≡ []
      → m.queue.m_done ≡ false
      → (m' : Machine T) × Runs m m'
        × (m'.queue.m_done ≡ true)
        × (m'.place ≡ Place.asleep)
        × ((m2 : Machine T) → PopStep m' m2 → ⊥)
  unfolding may_return empty is_empty stopped at stop notify
  stop-lost m p e d =
      let m1 = at Place.holding m in
      let m2 = stopped m1 in
      let m3 = at Place.asleep m2 in
      (
        m3,
        runs_on
            (runs_on (runs_on here (popping (tests p (rw (e, d) refl) refl))) (other (stops refl)))
            (popping (sleeps refl refl)),
        refl,
        refl,
        λ m4. asleep-PopStep m3 m4 refl,
      )
