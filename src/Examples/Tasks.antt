-- ===== src/Examples/Tasks.antt =====
-- A caller that awaits a task whose body ends in time, and one that is forgotten; a gateway's life.
use acnet.Prelude.{ℕ, ◌≡◌, ◌≢◌, refl, true, false, ◌⊎◌}
use acnet.Task.{throws, finish, await_resume, rethrown}
use acnet.Task.Answers.{IsAwaited, finish-IsAwaited}
use acnet.Task.Awaiting.{
  suspended-stays, State, Step, calling, suspended, going_on, dropped, left, at_end, over,
  has_gone_on, Reach, start, next, launch, not_ready, ready_at_end, drop, leave, store, end_body,
  transfer, no_one, over-resumed,
}
use acnet.Task.Frames.{frame-kept}
use acnet.EventBus.Routing.{number}
use acnet.Message.{cmd_module_stop}
use acnet.Actor.{launch_actor}
use acnet.Gateway.{bus_after, launch_actor-number}
use acnet.Examples.Supervisor.{library}
use acnet.Examples.Crash.{runtime}
use acnet.Examples.Bus.{bus, bus-IsRouting}

finish-IsAwaited_example : IsAwaited {T = ℕ} (finish (throws 3)) await_resume (rethrown 3) 7
finish-IsAwaited_example = finish-IsAwaited {T = ℕ} (throws 3) 7

abbrev resumed : State
resumed = record {
  caller = going_on;
  callee = over;
  continuation = true;
  resumptions = 1;
  frees = 0;
  missed = false;
  early = false;
}

Reach-resumed : Reach resumed
Reach-resumed =
    next
      (next (next (next (next start (launch refl refl)) (not_ready refl refl)) (store refl))
        (end_body refl))
      (transfer refl refl)

over-resumed_example :
    ((resumed.caller ≡ calling) × (resumed.resumptions ≡ 0))
    ⊎ ((has_gone_on resumed.caller ≡ true) × (resumed.resumptions ≡ 1))
over-resumed_example = over-resumed Reach-resumed refl refl

-- The caller's `Task` is destroyed, and the caller comes to its end.
abbrev finished : State
finished = record resumed { caller = left; frees = 1 }

Reach-finished : Reach finished
Reach-finished = next (next Reach-resumed (drop refl)) (leave refl)

frame-kept_example :
    ((finished.frees ≡ 0) × (finished.caller ≢ left))
    ⊎ ((finished.frees ≡ 1) × (finished.callee ≡ over) × (finished.resumptions ≡ 1))
frame-kept_example = frame-kept Reach-finished refl

-- The body is at its end on another thread when the caller asks `await_ready`, and the frame is
-- destroyed before the final awaiter reads the continuation from it.
abbrev too_early : State
too_early = record {
  caller = dropped;
  callee = at_end;
  continuation = false;
  resumptions = 1;
  frees = 1;
  missed = false;
  early = true;
}

Reach-too_early : Reach too_early
Reach-too_early =
    next (next (next (next start (launch refl refl)) (end_body refl)) (ready_at_end refl refl))
      (drop refl)

-- The body ends on another thread between `await_ready` and `await_suspend`.
abbrev forgotten : State
forgotten = record {
  caller = suspended;
  callee = over;
  continuation = true;
  resumptions = 0;
  frees = 0;
  missed = true;
  early = false;
}

Reach-forgotten : Reach forgotten
Reach-forgotten =
    next
      (next (next (next (next start (launch refl refl)) (not_ready refl refl)) (end_body refl))
        (no_one refl refl))
      (store refl)

forgotten-stays : {t : State} → ¬ Step forgotten t
forgotten-stays = suspended-stays refl refl

launch_actor-number_example :
    number cmd_module_stop 4 (bus_after 4 (launch_actor runtime library 1) bus).event_bus
    ≡ number cmd_module_stop 4 bus.event_bus
launch_actor-number_example =
    launch_actor-number runtime library 1 4 cmd_module_stop 4 bus bus-IsRouting
