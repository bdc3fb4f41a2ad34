-- ===== src/Examples/Crash.antt =====
-- A module that is launched, crashes, and is launched again.
use acnet.Prelude.{◌≡◌, refl, ◌++◌, false, [], ◌∷◌, contains, ◌⊎◌}
use acnet.Message.{EventMessage}
use acnet.Manager.State.{find, enqueued, consumed}
use acnet.Manager.EventLoop.{Delivery, delivers, run}
use acnet.Actor.{Runtime, messages, launch_actor, run_coroutine}
use acnet.Actor.CrashLoop.{crash_of, exit_of, launched-relaunches, launch_actor-exits}
use acnet.Examples.Supervisor.{environment, library, child, one_child, one_child-IsWellFormed}

abbrev pub runtime : Runtime
runtime = record { create = λ create_func id. 5; format = λ id type what. type ++ what }

abbrev delivery : EventMessage → Delivery
delivery msg = record { environment = environment; message = 60; body = msg }

launched-relaunches_example :
    let (n, done) =
      run
        (delivers (delivery (crash_of runtime 1)) ∷ delivers (delivery (exit_of 1)) ∷ [])
        one_child in
    (done ≡ false)
    × (n.childrens ≡ one_child.childrens)
    × (n.log
        ≡ consumed 60
          ∷ enqueued (record { library = library; actor_id = 1; mailbox = 1 })
          ∷ consumed 60
          ∷ [])
unfolding find contains messages launch_actor run_coroutine
launched-relaunches_example =
    launched-relaunches runtime 1 child library one_child (delivery (crash_of runtime 1))
      (delivery (exit_of 1)) one_child-IsWellFormed refl refl refl refl refl refl refl refl refl

launch_actor-exits_example :
    (messages (launch_actor runtime library 1) ≡ exit_of 1 ∷ [])
    ⊎ (messages (launch_actor runtime library 1) ≡ crash_of runtime 1 ∷ exit_of 1 ∷ [])
launch_actor-exits_example = launch_actor-exits runtime library 1
