-- ===== src/MailBox/Wakeup.antt =====
-- The wake-up protocol of include/mail_box.h and src/core/mail_box.cc: `Send` by any number of
-- threads against `WaitAwaiter` of the one consumer coroutine, interleaved at their atomic accesses.
-- The consumer is the manager's loop, which is armed before it is enqueued, or a module's coroutine,
-- which is enqueued by a `LaunchTask`, calls `MarkRunning` first, and may end and be launched again
-- with the same mailbox. The frame of a coroutine that has ended is destroyed.
-- Threads at the same place are interchangeable, so the state counts them. A thread may still be
-- inside `await_suspend` after another thread has resumed the coroutine, so all counts are free.
use acnet.Prelude.{ℕ, ◌+◌, ◌-◌, ◌<◌, ◌≡◌, Bool, true, false, ◌⊎◌}

pub record State : Type 0 where
  pub claimed : ℕ  -- in `try_enqueue`, behind the compare-exchange: the slot is not yet published
  pub messages : ℕ  -- published and not yet received
  pub scheduled : Bool  -- `scheduled_`
  pub bound : Bool  -- `consumer_` is not null
  pub marked : Bool  -- `ArmConsumer` or `MarkRunning` has been called
  pub sending : ℕ  -- in `Send`, behind `try_enqueue` that succeeded
  pub loading : ℕ  -- in `Send`, behind the exchange that returned false, before `consumer_.load`
  pub waking : ℕ  -- in `Send`, behind the load of a handle
  pub queued : ℕ  -- occurrences of the consumer's handle in the run queues
  pub running : ℕ  -- in the coroutine's own code
  pub ended : ℕ  -- the coroutine has ended, and has not been launched again
  pub suspending : ℕ  -- in `await_suspend`, before `scheduled_.exchange(false)`
  pub rechecking : ℕ  -- in `await_suspend`, behind it
  pub reclaiming : ℕ  -- in `await_suspend`, before `scheduled_.exchange(true)`
  -- The coroutine has bound its handle while a thread stood before the load, so that this thread finds
  -- a handle although `scheduled_` was false before there was one.
  pub overtaken : Bool

-- `can_dequeue` and `try_dequeue` may find the queue empty although a message is published, while an
-- older slot is claimed and not published.
abbrev pub MayLookEmpty : State → Type 0
MayLookEmpty s = (s.messages ≡ 0) ⊎ (0 < s.claimed)

pub data Step (s : State) : State → Type 0 where
  -- `Send`; one that finds the queue full changes nothing here.
  claim : Step s (record s { claimed = s.claimed + 1 })
  publish :
      0 < s.claimed
      → Step s
          (record s { claimed = s.claimed - 1; messages = s.messages + 1; sending = s.sending + 1 })
  exchange_false :
      0 < s.sending
      → s.scheduled ≡ false
      → Step s (record s { sending = s.sending - 1; scheduled = true; loading = s.loading + 1 })
  exchange_true :
      0 < s.sending
      → s.scheduled ≡ true
      → Step s (record s { sending = s.sending - 1; scheduled = true })
  load_handle :
      0 < s.loading
      → s.bound ≡ true
      → Step s (record s { loading = s.loading - 1; waking = s.waking + 1 })
  load_null : 0 < s.loading → s.bound ≡ false → Step s (record s { loading = s.loading - 1 })
  enqueue_handle : 0 < s.waking → Step s (record s { waking = s.waking - 1; queued = s.queued + 1 })
  -- The scheduler, and the consumer's loop.
  resume : 0 < s.queued → Step s (record s { queued = s.queued - 1; running = s.running + 1 })
  -- `MarkRunning`; the end of the coroutine, before `MarkRunning` where `create_func` fails; and a new
  -- `LaunchTask` for the same mailbox.
  mark : 0 < s.running → Step s (record s { scheduled = true; marked = true })
  finish : 0 < s.running → Step s (record s { running = s.running - 1; ended = s.ended + 1 })
  relaunch : 0 < s.ended → Step s (record s { ended = s.ended - 1; queued = s.queued + 1 })
  -- `try_receive`.
  receive :
      0 < s.running
      → s.marked ≡ true
      → 0 < s.messages
      → Step s (record s { messages = s.messages - 1 })
  -- `co_await Wait()`; where `await_ready` returns true nothing changes.
  suspend :
      0 < s.running
      → s.marked ≡ true
      → MayLookEmpty s
      → (s.bound ≡ true) ⊎ (s.loading ≡ 0)
      → Step s (record s { running = s.running - 1; suspending = s.suspending + 1; bound = true })
  suspend_overtaking :
      0 < s.running
      → s.marked ≡ true
      → MayLookEmpty s
      → s.bound ≡ false
      → 0 < s.loading
      → Step s (record s {
        running = s.running - 1;
        suspending = s.suspending + 1;
        bound = true;
        overtaken = true;
      })
  clear :
      0 < s.suspending
      → Step s (record s {
        suspending = s.suspending - 1;
        scheduled = false;
        rechecking = s.rechecking + 1;
      })
  stay_suspended :
      0 < s.rechecking → MayLookEmpty s → Step s (record s { rechecking = s.rechecking - 1 })
  recheck :
      0 < s.rechecking
      → 0 < s.messages
      → Step s (record s { rechecking = s.rechecking - 1; reclaiming = s.reclaiming + 1 })
  reclaim :
      0 < s.reclaiming
      → s.scheduled ≡ false
      → Step s
          (record s { reclaiming = s.reclaiming - 1; scheduled = true; running = s.running + 1 })
  yield_to_sender :
      0 < s.reclaiming
      → s.scheduled ≡ true
      → Step s (record s { reclaiming = s.reclaiming - 1; scheduled = true })

-- The manager's loop has been armed and put into a run queue.
abbrev pub armed : State
armed = record {
  claimed = 0;
  messages = 0;
  scheduled = true;
  bound = true;
  marked = true;
  sending = 0;
  loading = 0;
  waking = 0;
  queued = 1;
  running = 0;
  ended = 0;
  suspending = 0;
  rechecking = 0;
  reclaiming = 0;
  overtaken = false;
}

-- A module's coroutine has been put into a run queue, and nobody has sent to its new mailbox.
abbrev pub launched : State
launched = record armed { scheduled = false; bound = false; marked = false }

-- The states that are reachable from `armed`, with `true`, or from `launched`, with `false`.
pub data Reach : Bool → State → Type 0 where
  start : Reach true armed
  start_module : Reach false launched
  next : {is_armed : Bool} → {s t : State} → Reach is_armed s → Step s t → Reach is_armed t

abbrev pub bit : Bool → ℕ
bit true = 1
bit false = 0

-- The places of the consumer.
abbrev pub places : State → ℕ
places s = s.waking + s.queued + s.running + s.suspending + s.ended
