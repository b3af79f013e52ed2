-- ===== src/Queue/ThreadQue.antt =====
-- `ThreadQue` of src/core/ThreadQue.h: what each method does once it holds the lock.
use uno_server.Common.{
  ℕ, Bool, true, false, not, ◌||◌, Option, none, some, List, [], ◌∷◌, ◌++◌, length, if◌then◌else◌,
}

pub record ThreadQue (T : Type 0) : Type 0 where
  pub m_que : List T
  pub m_done : Bool

module _ {T : Type 0} where
  unfoldable pub push : T → ThreadQue T → ThreadQue T
  push value q = record q { m_que = q.m_que ++ value ∷ [] }

  unfoldable pub is_empty : List T → Bool
  is_empty [] = true
  is_empty (x ∷ xs) = false

  unfoldable pub empty : ThreadQue T → Bool
  empty q = is_empty q.m_que

  unfoldable pub size : ThreadQue T → ℕ
  size q = length q.m_que

  -- `m_que.front(); m_que.pop();`
  unfoldable pub take : Bool → List T → Option T × ThreadQue T
  take done [] = (none, record { m_que = []; m_done = done })
  take done (x ∷ xs) = (some x, record { m_que = xs; m_done = done })

  unfoldable pub try_pop : ThreadQue T → Option T × ThreadQue T
  try_pop q = take q.m_done q.m_que

  -- What `m_cond.wait` waits for.
  unfoldable pub may_return : ThreadQue T → Bool
  may_return q = not (empty q) || q.m_done

  -- What `pop` does when the wait is over.
  unfoldable pub pop : ThreadQue T → Option T × ThreadQue T
  pop q = if q.m_done then (none, q) else take q.m_done q.m_que

  unfoldable pub stop : ThreadQue T → ThreadQue T
  stop q = record q { m_done = true }
