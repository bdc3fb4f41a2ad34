-- ===== src/Examples/Scheduling.antt =====
-- Two workers, the second with two tasks in its queue, and the first without any.
use acnet.Prelude.{
  ℕ, zero, suc, ◌+◌, ◌<◌, ◌≡◌, refl, arith, false, none, some, List, [], ◌∷◌, count, length, ◌≤◌,
}
use acnet.WorkStealing.Deque.{take_last, take_first}
use acnet.GlobalQueue.{try_pop}
use acnet.Scheduler.{
  ActorScheduler, try_get_task, pop_global, pop_local, search_queues, steal_loop, steal_from,
}
use acnet.Scheduler.Tasks.{queued, is_task}
use acnet.Scheduler.Runs.{
  Call, AreCalls, enqueues, enqueues_batch, searches, call, calls, at_rest, searching,
}
use acnet.Scheduler.Drain.{calls-conserve, calls-drain}
use acnet.Scheduler.Search.{IsEmpty, IsProper, try_get_task-IsEmpty}
use acnet.Scheduler.Fairness.{counter, try_get_task-polls_global}

abbrev tasks : ℕ → List ℕ
tasks (suc zero) = 7 ∷ 8 ∷ []
tasks _ = []

abbrev busy : ActorScheduler
busy = record {
  local_queue = tasks;
  global_queue = record { queue = 5 ∷ []; idle_threads = 0; wake_epoch = 0; stop_flag = false };
  signals = 0;
}

abbrev quiet : ActorScheduler
quiet = record {
  local_queue = λ i. [];
  global_queue = record { queue = []; idle_threads = 0; wake_epoch = 0; stop_flag = false };
  signals = 0;
}

IsProper-quiet : IsProper quiet
IsProper-quiet = record { global = tt; local = λ i. tt }

try_get_task-IsEmpty_example : IsEmpty 2 quiet
unfolding try_get_task search_queues steal_loop pop_global pop_local take_last try_pop steal_from
    take_first
try_get_task-IsEmpty_example = try_get_task-IsEmpty 2 0 quiet IsProper-quiet (omega arith) 0 1 refl

-- A worker with the counter 0 calls in the same state again and again.
try_get_task-polls_global_example :
    (k : ℕ) × (k < 61)
    × ((x : ℕ) (xs : List ℕ)
        → 0 < x
        → 5 ∷ [] ≡ x ∷ xs
        → (try_get_task 2 0 (counter 2 0 0 (λ i. 1) (λ i. busy) k) 1 busy).2 ≡ x)
try_get_task-polls_global_example =
    try_get_task-polls_global 2 0 0 (λ i. 1) (λ i. busy) (omega arith)

-- The worker 1 enqueues a task, a thread that is no worker enqueues one and then two at once, and the
-- worker 0 searches, which steals from the worker 1 or takes from the global queue.
abbrev some_calls : List Call
some_calls = enqueues (some 1) 9 ∷ enqueues none 7 ∷ searches 0 1 ∷ enqueues_batch (7 ∷ 8 ∷ []) ∷ []

some_calls-AreCalls : AreCalls 2 some_calls
some_calls-AreCalls = (
  omega arith,
  omega arith,
  (tt, omega arith, (omega arith, ((omega arith, (omega arith, tt)), tt))),
)

calls-conserve_example :
    let r = calls 2 some_calls (at_rest quiet (λ i. 0)) in
    queued 2 (is_task 7) r.scheduler + count 7 r.handed ≡ count 7 r.entered
calls-conserve_example =
    calls-conserve 2 quiet (λ i. 0) some_calls (refl, λ i l. refl) some_calls-AreCalls 7
      (omega arith)

four : length (calls 2 some_calls (at_rest quiet (λ i. 0))).entered ≤ 4
unfolding calls call
four = omega arith

calls-drain_example :
    let r =
      calls 2 (searching 0 (3 ∷ 1 ∷ 4 ∷ 1 ∷ [])) (calls 2 some_calls (at_rest quiet (λ i. 0))) in
    IsEmpty 2 r.scheduler × ((x : ℕ) → 0 < x → count x r.handed ≡ count x r.entered)
calls-drain_example =
    calls-drain 2 quiet (λ i. 0) some_calls (refl, λ i l. refl) some_calls-AreCalls 0
      (3 ∷ 1 ∷ 4 ∷ 1 ∷ []) IsProper-quiet (omega arith) four
