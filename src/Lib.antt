-- ===== src/Lib.antt =====
-- The verification of acnet, a supervised actor server: a manager (an actor itself) loads modules
-- from shared libraries, runs one coroutine per module, restarts it after a crash, reloads, removes
-- and stops it on command, and ends the process when the last module has exited after a stop.
-- Actors talk through mailboxes; a signal handler turns a command line into messages to the manager.
--
-- Parts, and where they are modelled:
--
--   Message              include/event_message.h: the event types and the message
--   Plugin               src/core/plugin_manager.cc and .h, and `LoadedModule` of
--                        src/core/actor_manager.cc: the configuration and the loading of a library.
--                        The file system, the TOML reader and the dynamic loader are arguments.
--   Manager              src/core/actor_manager.cc and .h, `ActorManager`
--     Manager/State      `ActorMetaData`, the tables `childrens_`, `pending_*`, and the effects on
--                        the rest of the program, which the model logs in order
--     Manager/Loading    `__generate_creator`, `__load_modules`, `__reload_module`,
--                        `__reload_all_modules`, `__restart_module`
--     Manager/Handlers   `__search_module_and_remove` and the handlers `__handle_*`
--     Manager/EventLoop  `RunCoroutine` (one turn is `deliver`, a loop is `run` over a list of
--                        actions), `EventLoop`, `ReloadModule`, `RemoveModule`, `Shutdown`
--     Manager/Tables, Pending, WellFormed, Exits, Shutdown, Opening, Ownership, Presence,
--                        Supervision: proofs
--   MailQueue            include/queue.h, `MailQueue`: the ring of slots with sequence numbers,
--                        without interference; MailQueue/Fifo is what it promises; Ring, Slots,
--                        Refine and Construct prove that the ring implements it. Threads is the
--                        producers and the consumer as a step relation over their accesses, with
--                        proofs in Claims, Interleaving, Order, Delivery and Progress
--   MessageHeap          include/event_message.h: reference counts and `event_message_release`
--   MailBox              include/mail_box.h and src/core/mail_box.cc: `Send`, `try_receive` and the
--                        destructor without interference (MailBox/Counting and Consuming prove how
--                        they treat the counts); MailBox/Wakeup is `Send` against `await_suspend`
--                        as a step relation over the threads' places, with proofs in Once and Noticed
--   EventBus             include/event_bus.h and src/core/event_bus.cc: subscriptions, each thread's
--                        copy of them, publishing (proofs in EventBus/Routing, Sharing, History,
--                        Delivered, Subscriptions)
--   Actor                src/core/actor_module.cc and `__launch_actor` of src/core/actor_manager.cc:
--                        a module's coroutine; Actor/CrashLoop joins it to the manager
--   Gateway              src/modules/network_module/gateway_actor.cc: what a gateway does to the bus
--   Task                 include/task.h: the promise and the awaiter of a coroutine; proofs in Answers;
--                        Awaiting is a `LaunchTask` that awaits a task against the end of the
--                        task's body as a step relation, with proofs in Frames
--   SpscQueue            include/queue.h, `SPSCQueue`, with SpscQueue/Refine
--   Control              src/core/main.cc: what the command line and the signal handler make of the
--                        texts (with Control/RoundTrip); Control/System is the interface of the
--                        operating system, Control/Program the program's functions with their effects
--                        on the files; proofs in Service and Typed, and in Stopping from the shell to
--                        the end of the manager's loop
--   WorkStealing         include/queue.h, `WorkStealingQueue`. WorkStealing/Deque is what it promises;
--                        Sequential proves that it keeps the promise without interference; Threads is
--                        the owner and its thieves as a step relation over the accesses to the atomic
--                        variables, with proofs in Invariant, Keeping, Reached and Linear
--   GlobalQueue          include/queue.h, `GlobalQueue`; GlobalQueue/Workers is the loop of
--                        `scheduler_thread` around it as a step relation, with proofs in Invariant,
--                        Waking, Keeping, Reached and Parking; Joining is about the end of
--                        the loops after `Shutdown`
--   Scheduler            src/core/actor_scheduler.cc: `Enqueue`, `EnqueueBatch`, `try_get_task` over the
--                        queues of the workers and the global queue; proofs in Tasks, Search, Fairness,
--                        Proper. Runs is any sequence of their calls, with proofs in Drain. Lifecycle
--                        is the constructor, the threads and the destructor as a step relation
--   Prelude              the library names that all parts use; lemmas on words, lists, windows of a
--                        ring, families of numbers, texts
--   Examples             runs at concrete inputs, one file for each part
--
-- How code and model correspond. A function of the source is a function of the model with its name
-- in snake case; a loop over a container is a function over a list with its own name (`load_each`,
-- `stop_each`). `childrens_` is an association list: the source's order of iteration is not
-- specified, and the theorems hold for any order. Pointers to mailboxes, messages and coroutines
-- are numbers. The manager's actions outside itself (messages allocated, sent and released,
-- coroutines put into the run queues) are entries of a log, newest first. A run of the manager is
-- a list of actions: a message received, or a call of `Shutdown`, `ReloadModule`, `RemoveModule`
-- between two messages. `serve` is such a run from the start of `EventLoop`, with the rounds of
-- `__load_modules`, which another thread makes at the same time, at any place between the actions. Log lines and diagnostics are left out.
--
-- Bounds. Indices of the queue are 64-bit words, with wrap-around written out; its theorems ask for
-- a size from 2 to 2 ^ 63, and every mailbox of the program has `kMailBoxSize`. `bit_ceil` tries the
-- powers from 1 to 2 ^ 63, which is enough for any size up to 2 ^ 63. There is no other fuel: all loops
-- are structural. Reference counts are words; identifiers (`generate_unique_id`) and the versions of the
-- bus are natural numbers.
--
-- The positions of the work-stealing queue are 64-bit words that are compared as signed numbers, and
-- its theorems ask for fewer than 2 ^ 63 pushes. The theorems on the global queue ask for fewer than
-- 2 ^ 32 workers and fewer than 2 ^ 64 rises of the epoch. The interleavings of `MailQueue` are studied
-- for up to 2 ^ 61 slots and fewer than 2 ^ 62 messages. In the step relations the accesses to atomic
-- variables take effect in one order that all threads agree on; weaker orders are not modelled.
--
-- Not modelled: a round of `__load_modules` in the middle of the handling of a message (both access
-- `childrens_` without a lock); an exception in a `LaunchTask`, which ends the program; the pinning and
-- the names of the worker threads; the logger; the installation of the signal handler; third-party code.
pub mod Prelude
pub mod Message
pub mod MessageHeap
pub mod Plugin
pub mod Manager
pub mod MailQueue
pub mod MailBox
pub mod EventBus
pub mod Scheduler
pub mod WorkStealing
pub mod GlobalQueue
pub mod Actor
pub mod Control
pub mod Examples
pub mod Gateway
pub mod SpscQueue
pub mod Task
