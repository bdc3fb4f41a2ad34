-- ===== src/GlobalQueue/Workers.antt =====
-- The workers' loop, src/core/actor_scheduler.cc, `scheduler_thread`, around `GlobalQueue`, with the
-- calls that other threads make, interleaved at the mutex, the atomic counter and the signals.
use acnet.Prelude.{
  ℕ, suc, ◌+◌, ◌-◌, ◌<◌, ◌≡◌, Bool, true, false, if◌then◌else◌, ltb, List, update_at, is_empty,
}
use acnet.GlobalQueue.{
  GlobalQueue, new_global_queue, push, push_batch, try_pop, notify_one_idle, prepare_park,
  cancel_park, may_leave, leave_park, stop,
}

-- Where a worker is: before the test of the loop; behind the test, in the search; with a task, in its
-- coroutine; behind `prepare_park`, in the second search; with a task from it, before `cancel_park`;
-- without one, before the mutex of `park`; waiting; signalled, before it has the mutex again; and out of
-- the loop.
pub data Worker : Type 0 where
  working : Worker
  searching : Worker
  resuming : Worker
  prepared : ℕ → Worker
  cancelling : Worker
  parking : ℕ → Worker
  waiting : ℕ → Worker
  woken : ℕ → Worker
  gone : Worker

abbrev pub wake : Worker → Worker
wake (waiting e) = woken e
wake w = w

abbrev pub is_waiting : Worker → Bool
is_waiting (waiting e) = true
is_waiting w = false

-- `signals` are calls of `notify_one` still to come, and `signal_all` is one of `notify_all`;
-- `raised` counts how often the epoch was raised; `halted` is the negation of `running_`.
pub record State : Type 0 where
  pub g : GlobalQueue
  pub workers : ℕ → Worker
  pub signals : ℕ
  pub signal_all : Bool
  pub raised : ℕ
  pub halted : Bool

abbrev pub initial : State
initial = record {
  g = new_global_queue;
  workers = λ i. working;
  signals = 0;
  signal_all = false;
  raised = 0;
  halted = false;
}

-- The mutex is taken, and the number of signals is known.
abbrev pub issue : GlobalQueue × ℕ → State → State
issue (g, k) s = record s {
  g = g;
  signals = s.signals + k;
  raised = if ltb 0 k then suc s.raised else s.raised;
}

module _ (n : ℕ) where
  pub data Step (s : State) : State → Type 0 where
    -- Any thread: a new task, several, or a hint that there is work in a worker's own queue.
    pushes : (task : ℕ) → Step s (issue (push task s.g) s)
    pushes_batch : (tasks : List ℕ) → Step s (issue (push_batch tasks s.g) s)
    notifies : Step s (issue (notify_one_idle s.g) s)
    -- A signal wakes one waiting worker, if there is one. A worker may also wake without a signal.
    signal :
        (i : ℕ) {e : ℕ}
        → i < n
        → s.workers i ≡ waiting e
        → 0 < s.signals
        → Step s (record s { workers = update_at s.workers i (woken e); signals = s.signals - 1 })
    signal_none :
        ((i : ℕ) → is_waiting (s.workers i) ≡ false)
        → 0 < s.signals
        → Step s (record s { signals = s.signals - 1 })
    spurious :
        (i : ℕ) {e : ℕ}
        → i < n
        → s.workers i ≡ waiting e
        → Step s (record s { workers = update_at s.workers i (woken e) })
    -- `Shutdown`: `running_` is cleared, the queue is stopped, all waiting workers are signalled.
    halt : Step s (record s { halted = true })
    stops :
        s.halted ≡ true
        → s.g.stop_flag ≡ false
        → Step s (record s { g = (stop s.g).0; signal_all = true; raised = suc s.raised })
    signals_all :
        s.signal_all ≡ true
        → Step s (record s { workers = λ i. wake (s.workers i); signal_all = false })
    -- The worker `i`: the test of the loop; a search that takes a task of this queue, or one of a
    -- worker's own queue, and the coroutine's run; the parking code.
    searches :
        (i : ℕ)
        → i < n
        → s.workers i ≡ working
        → s.halted ≡ false
        → Step s (record s { workers = update_at s.workers i searching })
    takes :
        (i : ℕ)
        → i < n
        → s.workers i ≡ searching
        → Step s (record s { g = (try_pop s.g).0; workers = update_at s.workers i resuming })
    takes_elsewhere :
        (i : ℕ)
        → i < n
        → s.workers i ≡ searching
        → Step s (record s { workers = update_at s.workers i resuming })
    -- The coroutine has returned control, or was done before.
    returns :
        (i : ℕ)
        → i < n
        → s.workers i ≡ resuming
        → Step s (record s { workers = update_at s.workers i working })
    prepares :
        (i : ℕ)
        → i < n
        → s.workers i ≡ searching
        → Step s (record s {
          g = (prepare_park s.g).0;
          workers = update_at s.workers i (prepared (prepare_park s.g).1);
        })
    takes_again :
        (i : ℕ) {e : ℕ}
        → i < n
        → s.workers i ≡ prepared e
        → is_empty s.g.queue ≡ false
        → Step s (record s { g = (try_pop s.g).0; workers = update_at s.workers i cancelling })
    finds_elsewhere :
        (i : ℕ) {e : ℕ}
        → i < n
        → s.workers i ≡ prepared e
        → Step s (record s { workers = update_at s.workers i cancelling })
    cancels :
        (i : ℕ)
        → i < n
        → s.workers i ≡ cancelling
        → Step s (record s { g = cancel_park s.g; workers = update_at s.workers i resuming })
    finds_none :
        (i : ℕ) {e : ℕ}
        → i < n
        → s.workers i ≡ prepared e
        → is_empty s.g.queue ≡ true
        → Step s (record s { workers = update_at s.workers i (parking e) })
    waits :
        (i : ℕ) {e : ℕ}
        → i < n
        → s.workers i ≡ parking e
        → may_leave e s.g ≡ false
        → Step s (record s { workers = update_at s.workers i (waiting e) })
    waits_again :
        (i : ℕ) {e : ℕ}
        → i < n
        → s.workers i ≡ woken e
        → may_leave e s.g ≡ false
        → Step s (record s { workers = update_at s.workers i (waiting e) })
    leaves :
        (i : ℕ) {e : ℕ}
        → i < n
        → s.workers i ≡ parking e
        → may_leave e s.g ≡ true
        → Step s (record s { g = leave_park s.g; workers = update_at s.workers i working })
    leaves_woken :
        (i : ℕ) {e : ℕ}
        → i < n
        → s.workers i ≡ woken e
        → may_leave e s.g ≡ true
        → Step s (record s { g = leave_park s.g; workers = update_at s.workers i working })
    quits :
        (i : ℕ)
        → i < n
        → s.workers i ≡ working
        → s.halted ≡ true
        → Step s (record s { workers = update_at s.workers i gone })

  pub data Reach : State → Type 0 where
    start : Reach initial
    next : {s t : State} → Reach s → Step s t → Reach t
