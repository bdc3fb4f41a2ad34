-- ===== src/Scheduler.antt =====
-- src/core/actor_scheduler.cc and include/actor_scheduler.h: where a coroutine that becomes runnable
-- is put, and where a worker looks for one. Each worker's queue is what WorkStealing/Deque promises.
-- A coroutine handle is a number, and the null handle is 0. GlobalQueue/Workers has the loop of
-- `scheduler_thread` around these.
pub mod Tasks
pub mod Search
pub mod Fairness
pub mod Proper
pub mod Runs
pub mod Drain
pub mod Lifecycle
use acnet.Prelude.{
  ℕ, zero, suc, ◌+◌, ◌^◌, ◌%◌, ◌==◌, ltb, leb, if◌then◌else◌, Bool, true, false, Option, none, some,
  List, [], ◌∷◌, ◌++◌, length, update_at,
}
use acnet.WorkStealing.Deque.{take_last, take_first}
use acnet.GlobalQueue.{GlobalQueue, push, push_batch, try_pop, notify_one_idle}

-- `kWorkStealingQueueSize`
abbrev pub queue_size : ℕ
queue_size = 256

-- The queues of the workers and the global queue; `signals` counts the calls of `notify_one`.
pub record ActorScheduler : Type 0 where
  pub local_queue : ℕ → List ℕ
  pub global_queue : GlobalQueue
  pub signals : ℕ

abbrev pub issue : GlobalQueue × ℕ → ActorScheduler → ActorScheduler
issue (g, k) s = record s { global_queue = g; signals = s.signals + k }

-- A worker's queue has changed and may still hold more than one task.
unfoldable pub hint_if_many : List ℕ → ActorScheduler → ActorScheduler
hint_if_many xs s = if ltb 1 (length xs) then issue (notify_one_idle s.global_queue) s else s

-- `Enqueue`, called by the worker `tls_worker`, or by no worker.
unfoldable pub enqueue : Option ℕ → ℕ → ActorScheduler → ActorScheduler
unfolding hint_if_many
enqueue none handle s = issue (push handle s.global_queue) s
enqueue (some w) handle s =
    if leb queue_size (length (s.local_queue w))
    then issue (push handle s.global_queue) s
    else (let xs = s.local_queue w ++ handle ∷ [] in
        hint_if_many xs (record s { local_queue = update_at s.local_queue w xs }))

unfoldable pub enqueue_batch : List ℕ → ActorScheduler → ActorScheduler
enqueue_batch tasks s = issue (push_batch tasks s.global_queue) s

-- The parts of `try_get_task`: the global queue, the worker's own queue, and the other workers'
-- queues. A result of 0 is no task.
unfoldable pub pop_global : ActorScheduler → ActorScheduler × ℕ
pop_global s = let (g, task) = try_pop s.global_queue in (record s { global_queue = g }, task)

unfoldable pub pop_local : ℕ → ActorScheduler → ActorScheduler × ℕ
pop_local w s =
    let (rest, out) = take_last (s.local_queue w) in
    elim out [
      | none ↦ (s, 0)
      | some task ↦ (record s { local_queue = update_at s.local_queue w rest }, task)
    ]

unfoldable pub steal_from : ℕ → ActorScheduler → ActorScheduler × Option ℕ
unfolding hint_if_many
steal_from target s =
    let (rest, out) = take_first (s.local_queue target) in
    elim out [
      | none ↦ (s, none)
      | some task ↦ (
        hint_if_many rest (record s { local_queue = update_at s.local_queue target rest }),
        some task,
      )
    ]

-- The loop over the other workers, for the rounds that are left.
unfoldable pub steal_loop : (n w : ℕ) → ℕ → ℕ → ActorScheduler → ActorScheduler × ℕ
steal_loop n w zero target s = (s, 0)
steal_loop n w (suc rounds) target s =
    let rest = steal_loop n w rounds ((target + 1) % n) s in
    if target == w
    then rest
    else (let (s', out) = steal_from target s in elim out [ none ↦ rest | some task ↦ (s', task) ])

-- The search behind the global poll.
unfoldable pub search_queues : (n w rng : ℕ) → ActorScheduler → ActorScheduler × ℕ
unfolding steal_loop
search_queues n w rng s =
    let (a, own) = pop_local w s in
    if own == 0
    then (let (b, shared) = pop_global a in
        if shared == 0 then steal_loop n w n (rng % n) b else (b, shared))
    else (a, own)

-- `try_get_task` of the worker `w` of `n`, with its counter `tick`, which it returns, and the value of
-- its random generator.
unfoldable pub try_get_task : (n w tick rng : ℕ) → ActorScheduler → ActorScheduler × ℕ × ℕ
unfolding search_queues
try_get_task n w tick rng s =
    let tick' = (tick + 1) % 2 ^ 32 in
    let (polled, task) = pop_global s in
    let (found, task') = search_queues n w rng s in
    if tick' % 61 == 0
    then (if task == 0
        then (let (a, t) = search_queues n w rng polled in (a, tick', t))
        else (polled, tick', task))
    else (found, tick', task')
