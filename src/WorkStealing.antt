-- ===== src/WorkStealing.antt =====
-- include/queue.h, `WorkStealingQueue`: a ring of coroutine handles that its owner pushes to and pops
-- from at the bottom, and that other threads steal from at the top. This file has its operations run
-- without interference; WorkStealing/Threads has them cut at their atomic accesses.
-- A handle is a number, and the null handle is 0. `N` is a power of two, so `index & kMask` is the
-- remainder by it.
pub mod Deque
pub mod Sequential
pub mod Threads
pub mod Invariant
pub mod Keeping
pub mod Reached
pub mod Linear
use acnet.Prelude.{
  ℕ, ◌%◌, ◌==◌, leb, if◌then◌else◌, Bool, true, false, increment, decrement, subtract, signed_ltb,
  signed_leb, update_at,
}

-- `enum class StealState`
pub data StealState : Type 0 where
  empty : StealState
  success : StealState
  aborted : StealState

pub record WorkStealingQueue : Type 0 where
  pub top : ℕ
  pub bottom : ℕ
  pub queue : ℕ → ℕ

-- The constructor.
unfoldable pub new_queue : WorkStealingQueue
new_queue = record { top = 0; bottom = 0; queue = λ i. 0 }

-- The difference of the indices as `int64_t`, and 0 where it is not positive.
unfoldable pub approx_size : WorkStealingQueue → ℕ
approx_size q = let diff = subtract q.bottom q.top in if signed_ltb 0 diff then diff else 0

module _ (N : ℕ) where
  unfoldable pub push : ℕ → WorkStealingQueue → WorkStealingQueue × Bool
  push handle q = if leb N (subtract q.bottom q.top) then (q, false) else (
    record q { queue = update_at q.queue (q.bottom % N) handle; bottom = increment q.bottom },
    true,
  )

  -- The queue, the handle and the result.
  unfoldable pub pop : WorkStealingQueue → WorkStealingQueue × ℕ × StealState
  pop q =
      let bt = decrement q.bottom in
      if signed_leb q.top bt
      then (let ptr = q.queue (bt % N) in
          let state = if ptr == 0 then empty else success in
          if q.top == bt
          then (record q { top = increment q.top; bottom = increment bt }, ptr, state)
          else (record q { bottom = bt }, ptr, state))
      else (record q { bottom = increment bt }, 0, empty)

  -- Without interference the compare-exchange succeeds.
  unfoldable pub steal : WorkStealingQueue → WorkStealingQueue × ℕ × StealState
  steal q =
      if signed_ltb q.top q.bottom
      then (record q { top = increment q.top }, q.queue (q.top % N), success)
      else (q, 0, empty)
