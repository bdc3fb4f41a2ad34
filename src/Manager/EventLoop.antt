-- ===== src/Manager/EventLoop.antt =====
-- `ActorManager::RunCoroutine`, `EventLoop` up to its wait, and the commands that other threads
-- give: `Shutdown`, `ReloadModule` and `RemoveModule`. A run is a sequence of deliveries and
-- commands in any order.
use acnet.Prelude.{
  ℕ, ◌-◌, if◌then◌else◌, Bool, true, false, none, some, List, [], ◌∷◌, ◌++◌, Bytes, is_empty,
}
use acnet.Message.{
  EventType, EventMessage, none_event, cmd_exit, cmd_module_stop, cmd_module_reload,
  cmd_module_remove, module_exited, crash_report,
}
use acnet.Plugin.{AcModule, AcConfig, Loader}
use acnet.Manager.State.{
  Launch, ActorManager, sent, consumed, looped, enqueued_batch, emit, new_message, own_mailbox,
}
use acnet.Manager.Loading.{library_file, generate_creator, add_child}
use acnet.Manager.Handlers.{
  Environment, handle_cmd_exit, handle_cmd_reload, handle_cmd_remove, handle_event_exit,
  handle_event_crash,
}

-- A message that `try_receive` has taken from the mailbox: its number and its content.
pub record Delivery : Type 0 where
  pub environment : Environment
  pub message : ℕ
  pub body : EventMessage

-- `main_latch_.count_down()`
unfoldable pub count_down : ActorManager → ActorManager
count_down m = record m { main_latch = m.main_latch - 1 }

-- The `switch`. A handler that returns a truth value ends the loop where it is true. A command
-- without its text is outside the program's contract, and changes nothing here.
unfoldable pub dispatch : EventType → Delivery → ActorManager → ActorManager × Bool
dispatch cmd_exit d m = handle_cmd_exit m
dispatch cmd_module_reload d m = elim d.body.payload [
  | none ↦ (m, false)
  | some name ↦ (handle_cmd_reload d.environment name m, false)
]
dispatch cmd_module_remove d m = elim d.body.payload [
  | none ↦ (m, false)
  | some name ↦ (handle_cmd_remove name m, false)
]
dispatch module_exited d m = handle_event_exit d.environment.loader d.body.sender_id m
dispatch crash_report d m = (handle_event_crash d.body.sender_id m, false)
dispatch none_event d m = (m, false)
dispatch cmd_module_stop d m = (m, false)

-- One round of the inner loop; true where the coroutine returns.
unfoldable pub deliver : Delivery → ActorManager → ActorManager × Bool
unfolding dispatch emit count_down
deliver d m =
    let (m', done) = dispatch d.body.type d m in
    if done
    then (emit (consumed d.message) (count_down m'), true)
    else (emit (consumed d.message) m', false)

-- `ReloadModule`, `RemoveModule`
unfoldable pub reload_command : Bytes → ActorManager → ActorManager
unfolding emit new_message
reload_command name m =
    emit (sent own_mailbox m.next_message) (new_message 1 cmd_module_reload (some name) m)

unfoldable pub remove_command : Bytes → ActorManager → ActorManager
unfolding emit new_message
remove_command name m =
    emit (sent own_mailbox m.next_message) (new_message 1 cmd_module_remove (some name) m)

-- `Shutdown`
unfoldable pub shutdown : ActorManager → ActorManager
unfolding emit new_message
shutdown m =
    if m.is_running
    then emit (sent own_mailbox m.next_message)
        (new_message 1 cmd_exit none (record m { is_running = false }))
    else m

-- The constructor; identifiers count from 1, and 0 is no mailbox of a child and no message.
unfoldable pub initial : AcConfig → ActorManager
initial c = record {
  is_running = false;
  reload_all_flag = false;
  main_latch = 1;
  childrens = [];
  pending_reload = [];
  pending_stop = [];
  pending_restart = [];
  config = c;
  next_id = 1;
  next_mailbox = 1;
  next_message = 1;
  log = [];
}

-- `EventLoop` up to the `Enqueue` of the loop's coroutine, which may run from then on.
unfoldable pub open_loop : ActorManager → ActorManager
unfolding emit
open_loop m = emit looped (record m { is_running = true })

-- How far the thread of `EventLoop` is in `__load_modules`: before it reads the configuration, in its
-- loop with the modules that are left and the coroutines so far, and behind it.
pub data Progress : Type 0 where
  unread : Progress
  loading : AcConfig → List AcModule → List Launch → Progress
  loaded : Progress

-- The next round of that thread.
unfoldable pub load_next : Loader → Progress → ActorManager → Progress × ActorManager
unfolding emit
load_next l unread m =
    if is_empty m.config.modules then (loaded, m) else (loading m.config m.config.modules [], m)
load_next l (loading c [] tasks) m = (loaded, emit (enqueued_batch tasks) m)
load_next l (loading c (mod' ∷ mods) tasks) m = elim (generate_creator l (library_file c mod')) [
  | none ↦ (loading c mods tasks, m)
  | some lib ↦
      let (m', task) = add_child mod'.module_name lib m in (loading c mods (tasks ++ task ∷ []), m')
]
load_next l loaded m = (loaded, m)

-- What can happen next.
pub data Action : Type 0 where
  delivers : Delivery → Action
  shuts_down : Action
  reloads : Bytes → Action
  removes : Bytes → Action

unfoldable pub perform : Action → ActorManager → ActorManager × Bool
perform (delivers d) m = deliver d m
perform shuts_down m = (shutdown m, false)
perform (reloads name) m = (reload_command name m, false)
perform (removes name) m = (remove_command name m, false)

-- Actions until the coroutine returns.
unfoldable pub run : List Action → ActorManager → ActorManager × Bool
run [] m = (m, false)
run (a ∷ as') m =
    let (m', done) = perform a m in let rest = run as' m' in if done then (m', true) else rest

-- The same from the start of `EventLoop`, while its thread loads the modules: rounds of `__load_modules`
-- stand between the actions, in any order, until the coroutine returns.
pub data Event : Type 0 where
  loads : Loader → Event
  acts : Action → Event

unfoldable pub run_events : List Event → Progress → ActorManager → ActorManager × Bool
run_events [] g m = (m, false)
run_events (loads l ∷ es) g m = let (g', m') = load_next l g m in run_events es g' m'
run_events (acts a ∷ es) g m =
    let (m', done) = perform a m in
    let rest = run_events es g m' in if done then (m', true) else rest

unfoldable pub serve : AcConfig → List Event → ActorManager × Bool
serve c es = run_events es unread (open_loop (initial c))
