-- ===== src/Scheduler/Runs.antt =====
-- Runs of src/core/actor_scheduler.cc: any sequence of calls of `Enqueue`, `EnqueueBatch` and
-- `try_get_task` by the workers and by other threads, one call after the other. Each worker has the
-- counter of its polls; the random number of each search is free.
use acnet.Prelude.{ℕ, ◌+◌, ◌<◌, ◌≡◌, Option, List, [], ◌∷◌, ◌++◌, arith, update_at}
use acnet.Scheduler.{ActorScheduler, enqueue, enqueue_batch, try_get_task}
use acnet.Scheduler.Tasks.{
  queued, weight, weight-append, IsCaller, enqueue-queued, enqueue_batch-queued,
}
use acnet.WorkStealing.Sequential.{AllPos}
use acnet.Scheduler.Proper.{enqueue-IsProper, enqueue_batch-IsProper, try_get_task-IsProper}
use acnet.Scheduler.Search.{IsProper, try_get_task-queued}

pub data Call : Type 0 where
  enqueues : Option ℕ → ℕ → Call
  enqueues_batch : List ℕ → Call
  searches : ℕ → ℕ → Call

-- The scheduler with the workers' counters, the tasks that have been enqueued, and the results of the
-- searches, newest first.
pub record Run : Type 0 where
  pub scheduler : ActorScheduler
  pub ticks : ℕ → ℕ
  pub entered : List ℕ
  pub handed : List ℕ

-- A call at a scheduler of `n` workers.
unfoldable pub call : ℕ → Call → Run → Run
call n (enqueues caller task) r = record r {
  scheduler = enqueue caller task r.scheduler;
  entered = task ∷ r.entered;
}
call n (enqueues_batch tasks) r = record r {
  scheduler = enqueue_batch tasks r.scheduler;
  entered = tasks ++ r.entered;
}
call n (searches w rng) r =
    let (s, tick, task) = try_get_task n w (r.ticks w) rng r.scheduler in
    record r { scheduler = s; ticks = update_at r.ticks w tick; handed = task ∷ r.handed }

unfoldable pub calls : ℕ → List Call → Run → Run
unfolding call
calls n [] r = r
calls n (c ∷ cs) r = calls n cs (call n c r)

-- Each call is of a worker of the scheduler, or of a thread that is no worker, and brings no null
-- handle.
abbrev pub AreCalls : ℕ → List Call → Type 0
AreCalls n [] = Unit {0}
AreCalls n (enqueues caller task ∷ cs) = IsCaller n caller × (0 < task) × AreCalls n cs
AreCalls n (enqueues_batch tasks ∷ cs) = AllPos tasks × AreCalls n cs
AreCalls n (searches w rng ∷ cs) = (w < n) × AreCalls n cs

-- What has been enqueued is in the queues or has been handed out.
abbrev pub IsConserved : ℕ → (ℕ → ℕ) → Run → Type 0
IsConserved n f r = queued n f r.scheduler + weight f r.handed ≡ weight f r.entered

pub calls-IsConserved :
    (n : ℕ) (f : ℕ → ℕ) (cs : List Call) (r : Run)
    → f 0 ≡ 0
    → AreCalls n cs
    → IsConserved n f r
    → IsConserved n f (calls n cs r)
unfolding calls call
calls-IsConserved n f [] r z a h = h
calls-IsConserved n f (enqueues caller task ∷ cs) r z (c, b, a) h =
    calls-IsConserved n f cs (call n (enqueues caller task) r) z a
      (omega (arith, h, enqueue-queued n f caller task r.scheduler c))
calls-IsConserved n f (enqueues_batch tasks ∷ cs) r z (b, a) h =
    calls-IsConserved n f cs (call n (enqueues_batch tasks) r) z a (
      omega (arith, h, enqueue_batch-queued n f tasks r.scheduler, weight-append f tasks r.entered))
calls-IsConserved n f (searches w rng ∷ cs) r z (l, a) h =
    calls-IsConserved n f cs (call n (searches w rng) r) z a
      (omega (arith, h, try_get_task-queued n f w (r.ticks w) rng r.scheduler z l))

pub calls-IsProper :
    (n : ℕ) (cs : List Call) (r : Run)
    → AreCalls n cs
    → IsProper r.scheduler
    → IsProper (calls n cs r).scheduler
unfolding calls call
calls-IsProper n [] r a p = p
calls-IsProper n (enqueues caller task ∷ cs) r (c, h, a) p =
    calls-IsProper n cs (call n (enqueues caller task) r) a
      (enqueue-IsProper caller task r.scheduler h p)
calls-IsProper n (enqueues_batch tasks ∷ cs) r (h, a) p =
    calls-IsProper n cs (call n (enqueues_batch tasks) r) a
      (enqueue_batch-IsProper tasks r.scheduler h p)
calls-IsProper n (searches w rng ∷ cs) r (l, a) p =
    calls-IsProper n cs (call n (searches w rng) r) a
      (try_get_task-IsProper n w (r.ticks w) rng r.scheduler p)

-- A scheduler whose queues are empty, before the calls.
abbrev pub at_rest : ActorScheduler → (ℕ → ℕ) → Run
at_rest s ticks = record { scheduler = s; ticks = ticks; entered = []; handed = [] }

-- One worker searches again and again.
abbrev pub searching : ℕ → List ℕ → List Call
searching w [] = []
searching w (rng ∷ rngs) = searches w rng ∷ searching w rngs
