-- ===== src/Examples/Supervisor.antt =====
-- The theorems about the manager at concrete states, and runs of it.
use acnet.Prelude.{
  ◌≡◌, refl, true, false, none, some, List, [], ◌∷◌, arith, codes, contains, bytes_eq,
}
use acnet.Message.{EventMessage, EventType, cmd_exit, cmd_module_stop, module_exited, crash_report}
use acnet.Plugin.{AcModule, AcConfig, Host, Loader, LoadedModule, open_module, loaded_module}
use acnet.Manager.State.{
  ActorMetaData, ActorManager, allocated, sent, enqueued, find, find_name, remove,
}
use acnet.Manager.Tables.{keys, IsWellFormed}
use acnet.Manager.Loading.{library_file, generate_creator}
use acnet.Manager.Handlers.{Environment, handle_cmd_remove, handle_event_exit, handle_event_crash}
use acnet.Manager.EventLoop.{
  Delivery, delivers, shuts_down, removes, run, Event, loads, acts, serve,
}
use acnet.Manager.WellFormed.Handling.{run-IsWellFormed}
use acnet.Manager.Ownership.{IsBalanced}
use acnet.Manager.Ownership.Handling.{run-IsBalanced}
use acnet.Manager.Presence.{Has}
use acnet.Manager.Presence.Handlers.{exits}
use acnet.Manager.Presence.Handling.{run-waits}
use acnet.Manager.Shutdown.{IsShutDown, shutdown-Ended}
use acnet.Manager.Supervision.{
  crash_exit-restarts, remove_crash_exit-unmounts, first_named, exit-reloads,
}

abbrev network : AcModule
network = record { module_name = codes "net"; library_name = codes "actor" }

abbrev config : AcConfig
config = record { library_path = codes "lib"; modules = network ∷ [] }

-- A linker that finds every library and symbol, and one that finds none.
abbrev linker : Loader
linker = record { dlopen = λ path. 7; dlsym = λ handle name. some 9 }

abbrev broken : Loader
broken = record { dlopen = λ path. 0; dlsym = λ handle name. none }

abbrev host : Host
host = record {
  stat_ok = true;
  is_regular = true;
  open_ok = true;
  content = some [];
  read_toml = λ text. some config;
}

abbrev pub environment : Environment
environment = record { loader = linker; host = host }

abbrev pub library : LoadedModule
library = record { path = codes "lib/libactor.so"; handle = 7; create_func = 9; destroy_func = 9 }

abbrev pub child : ActorMetaData
child = record { actor_id = 1; mailbox = 1; module_name = codes "net"; creator = some library }

-- A running manager with one child.
abbrev pub one_child : ActorManager
one_child = record {
  is_running = true;
  reload_all_flag = false;
  main_latch = 1;
  childrens = (1, child) ∷ [];
  pending_reload = [];
  pending_stop = [];
  pending_restart = [];
  config = config;
  next_id = 2;
  next_mailbox = 2;
  next_message = 1;
  log = [];
}

-- The same, with the child waiting to be reloaded.
abbrev reloading : ActorManager
reloading = record one_child { pending_reload = 1 ∷ [] }

pub one_child-IsWellFormed : IsWellFormed one_child
unfolding contains
one_child-IsWellFormed = record {
  positive = omega arith;
  table = ((omega arith, omega arith, refl, omega arith, omega arith, refl, refl), tt);
  pending = record {
    reload_known = λ i h. cc;
    stop_known = λ i h. cc;
    restart_known = λ i h. cc;
    apart = λ i h. cc;
  };
}

reloading-IsWellFormed : IsWellFormed reloading
unfolding contains
reloading-IsWellFormed = record {
  positive = omega arith;
  table = one_child-IsWellFormed.table;
  pending = record {
    reload_known = λ i h. h;
    stop_known = λ i h. cc;
    restart_known = λ i h. cc;
    apart = λ i h. cc;
  };
}

abbrev pub event : EventType → Delivery
event type = record {
  environment = environment;
  message = 50;
  body = record { ref = 1; type = type; sender_id = 1; payload = none };
}

-- The module is loaded after a command has been given and before its coroutine is enqueued.
abbrev opening : List Event
opening =
    loads linker
    ∷ acts (removes (codes "net"))
    ∷ loads linker
    ∷ acts (delivers (event crash_report))
    ∷ loads linker
    ∷ acts (delivers (event module_exited))
    ∷ []

run-IsWellFormed_example : IsWellFormed (serve config opening).0
run-IsWellFormed_example = run-IsWellFormed config opening

run-IsBalanced_example : IsBalanced (serve config opening).0
run-IsBalanced_example = run-IsBalanced config opening

run-waits_example :
    Has 1 (run (shuts_down ∷ delivers (event cmd_exit) ∷ []) one_child).0
    × ((run (shuts_down ∷ delivers (event cmd_exit) ∷ []) one_child).1 ≡ false)
unfolding exits contains
run-waits_example = run-waits 1 (shuts_down ∷ delivers (event cmd_exit) ∷ []) one_child refl refl

shutdown-Ended_example :
    IsShutDown (shuts_down ∷ []) one_child (event cmd_exit) (event module_exited ∷ [])
unfolding contains
shutdown-Ended_example =
    shutdown-Ended one_child (event cmd_exit) (event module_exited ∷ []) one_child-IsWellFormed refl
      refl ((refl, refl), tt) (λ i. refl)

crash_exit-restarts_example :
    let (n, done) = handle_event_exit linker 1 (handle_event_crash 1 one_child) in
    (done ≡ false)
    × (n.childrens ≡ (1, child) ∷ [])
    × (n.log ≡ enqueued (record { library = library; actor_id = 1; mailbox = 1 }) ∷ [])
    × (contains 1 n.pending_restart ≡ false)
unfolding find contains
crash_exit-restarts_example =
    crash_exit-restarts linker 1 child library one_child one_child-IsWellFormed refl refl refl refl
      refl

remove_crash_exit-unmounts_example :
    let msg : EventMessage = record {
      ref = 1;
      type = cmd_module_stop;
      sender_id = 0;
      payload = none;
    } in
    let n = handle_cmd_remove (codes "net") one_child in
    let (o, done) = handle_event_exit linker 1 n in
    let (o', done') = handle_event_exit linker 1 (handle_event_crash 1 n) in
    (n.log ≡ sent 1 1 ∷ allocated 1 msg ∷ [])
    × ((done ≡ false) × (o.childrens ≡ remove 1 ((1, child) ∷ [])) × (o.log ≡ n.log))
    × ((done' ≡ false) × (o'.childrens ≡ remove 1 ((1, child) ∷ [])) × (o'.log ≡ n.log))
unfolding find find_name contains bytes_eq
remove_crash_exit-unmounts_example =
    remove_crash_exit-unmounts linker (codes "net") 1 child one_child refl refl refl refl

exit-reloads_example :
    let (n, done) = handle_event_exit linker 1 reloading in
    (done ≡ false)
    × (find 1 n.childrens ≡ some child)
    × (keys n.childrens ≡ 1 ∷ [])
    × (n.log ≡ enqueued (record { library = library; actor_id = 1; mailbox = 1 }) ∷ [])
    × (contains 1 n.pending_reload ≡ false)
unfolding find contains first_named bytes_eq generate_creator library_file open_module loaded_module
exit-reloads_example =
    exit-reloads linker 1 child network library reloading reloading-IsWellFormed refl refl refl refl
      refl refl
