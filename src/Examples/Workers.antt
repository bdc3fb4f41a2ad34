-- ===== src/Examples/Workers.antt =====
-- Workers that park: the first waits, a task is pushed, the worker is signalled and leaves; and a stop.
use acnet.Prelude.{
  some, ℕ, ◌<◌, ◌≤◌, ◌≡◌, ◌≢◌, refl, arith, true, false, [], ◌∷◌, update_at, number_of,
}
use acnet.GlobalQueue.{new_global_queue, push, prepare_park, may_leave, stop, raise_if}
use acnet.GlobalQueue.Workers.{
  searching, searches, Step, gone, resuming, prepared, parking, waiting, woken, is_waiting, wake,
  State, initial, pushes, signal, halt, stops, signals_all, prepares, finds_none, waits, Reach,
  start, next,
}
use acnet.GlobalQueue.Invariant.{is_idle, is_awake}
use acnet.GlobalQueue.Joining.{Run, mover, shutdown-joins}
use acnet.GlobalQueue.Parking.{no_lost_task, stopped-wakes_all, idle_threads_lem}

-- The first of two workers waits.
abbrev asleep : State
asleep = record initial {
  g = record initial.g { idle_threads = 1 };
  workers =
      update_at
        (update_at (update_at (update_at initial.workers 0 searching) 0 (prepared 0)) 0 (parking 0))
        0 (waiting 0);
}

Reach-asleep : Reach 2 asleep
unfolding new_global_queue prepare_park may_leave
Reach-asleep =
    next
      (next (next (next start (searches 0 (omega arith) refl refl)) (prepares 0 (omega arith) refl))
        (finds_none 0 (omega arith) refl refl))
      (waits 0 (omega arith) refl refl)

-- The task 7 has been pushed, and its signal is still to come.
abbrev pushed : State
pushed = record asleep {
  g = record { queue = 7 ∷ []; idle_threads = 1; wake_epoch = 1; stop_flag = false };
  signals = 1;
  raised = 1;
}

Reach-pushed : Reach 2 pushed
unfolding new_global_queue push raise_if
Reach-pushed = next Reach-asleep (pushes 7)

abbrev signalled : State
signalled = record pushed { workers = update_at pushed.workers 0 (woken 0); signals = 0 }

Reach-signalled : Reach 2 signalled
Reach-signalled = next Reach-pushed (signal 0 (omega arith) refl (omega arith))

no_lost_task_example : (i : ℕ) × (i < 2) × (is_awake (signalled.workers i) ≡ true)
no_lost_task_example =
    no_lost_task 2 Reach-signalled (omega arith) (omega arith) (omega arith) refl refl refl

idle_threads_lem_example : (1 ≡ number_of is_idle 2 asleep.workers) × (1 ≤ 2)
idle_threads_lem_example = idle_threads_lem 2 Reach-asleep (omega arith) (omega arith) (omega arith)

-- The queue is stopped, and all are signalled.
abbrev stopped : State
stopped = record asleep {
  g = record { queue = []; idle_threads = 1; wake_epoch = 1; stop_flag = true };
  workers = λ i. wake (asleep.workers i);
  raised = 1;
  halted = true;
}

Reach-stopped : Reach 2 stopped
unfolding new_global_queue stop raise_if
Reach-stopped = next (next (next Reach-asleep halt) (stops refl refl)) (signals_all refl)

stopped-wakes_all_example : is_waiting (stopped.workers 0) ≡ false
stopped-wakes_all_example =
    stopped-wakes_all 2 0 Reach-stopped (omega arith) (omega arith) (omega arith) refl refl

shutdown-joins_example :
    ((t : State) (k : ℕ) → Run 2 0 stopped t k → k ≤ 5)
    × (stopped.workers 0 ≢ gone
        → stopped.workers 0 ≢ resuming
        → (t : State) × (st : Step 2 stopped t) × (mover 2 st ≡ some 0))
shutdown-joins_example =
    shutdown-joins 2 Reach-stopped (omega arith) (omega arith) (omega arith) (refl, refl, refl) 0
      (omega arith)
