-- ===== src/GlobalQueue.antt =====
-- include/queue.h, `GlobalQueue`: the tasks that belong to no worker, under a mutex, and the parking
-- of idle workers. Each function is what its method does while it holds the mutex; where a method
-- signals the condition variable afterwards, the number of signals is part of the result.
-- GlobalQueue/Workers runs them under the workers' loop. A task is a handle, a number, and the null
-- handle is 0.
pub mod Workers
pub mod Invariant
pub mod Waking
pub mod Keeping
pub mod Reached
pub mod Parking
pub mod Joining
use acnet.Prelude.{
  ℕ, min, ltb, ◌==◌, ◌||◌, not, if◌then◌else◌, Bool, true, false, List, [], ◌∷◌, ◌++◌, length,
  is_empty, increment, decrement,
}

pub record GlobalQueue : Type 0 where
  pub queue : List ℕ
  pub idle_threads : ℕ
  pub wake_epoch : ℕ
  pub stop_flag : Bool

unfoldable pub new_global_queue : GlobalQueue
new_global_queue = record { queue = []; idle_threads = 0; wake_epoch = 0; stop_flag = false }

-- The epoch is raised where a worker is to be woken.
unfoldable pub raise_if : Bool → GlobalQueue → GlobalQueue
raise_if wakes g = record g { wake_epoch = if wakes then increment g.wake_epoch else g.wake_epoch }

unfoldable pub push : ℕ → GlobalQueue → GlobalQueue × ℕ
unfolding raise_if
push task g =
    let wakes = ltb 0 g.idle_threads in
    (raise_if wakes (record g { queue = g.queue ++ task ∷ [] }), if wakes then 1 else 0)

unfoldable pub push_batch : List ℕ → GlobalQueue → GlobalQueue × ℕ
unfolding raise_if
push_batch tasks g =
    let wake_count = min (length tasks) g.idle_threads in
    if is_empty tasks
    then (g, 0)
    else (raise_if (ltb 0 wake_count) (record g { queue = g.queue ++ tasks }), wake_count)

unfoldable pub try_pop : GlobalQueue → GlobalQueue × ℕ
try_pop g = elim g.queue [ [] ↦ (g, 0) | task ∷ tasks ↦ (record g { queue = tasks }, task) ]

unfoldable pub notify_one_idle : GlobalQueue → GlobalQueue × ℕ
unfolding raise_if
notify_one_idle g = let wakes = ltb 0 g.idle_threads in (raise_if wakes g, if wakes then 1 else 0)

-- The epoch is what `park` is given.
unfoldable pub prepare_park : GlobalQueue → GlobalQueue × ℕ
prepare_park g = (record g { idle_threads = increment g.idle_threads }, g.wake_epoch)

unfoldable pub cancel_park : GlobalQueue → GlobalQueue
cancel_park g = record g { idle_threads = decrement g.idle_threads }

-- The predicate of the wait in `park`, and what `park` does once it holds.
unfoldable pub may_leave : ℕ → GlobalQueue → Bool
may_leave observed_epoch g = g.stop_flag || not (g.wake_epoch == observed_epoch)

unfoldable pub leave_park : GlobalQueue → GlobalQueue
leave_park g = record g { idle_threads = decrement g.idle_threads }

-- True where all waiting workers are to be signalled.
unfoldable pub stop : GlobalQueue → GlobalQueue × Bool
unfolding raise_if
stop g = if g.stop_flag then (g, false) else (raise_if true (record g { stop_flag = true }), true)
