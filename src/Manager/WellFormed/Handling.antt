-- ===== src/Manager/WellFormed/Handling.antt =====
-- The handlers and the commands keep `IsWellFormed`, and so does every run.
use acnet.Prelude.{
  refl, inl, inr, List, [], ◌∷◌, is_empty, arith, contains, Bool-cases, Option-cases,
}
use acnet.Message.{
  EventType, none_event, cmd_exit, cmd_module_stop, cmd_module_reload, cmd_module_remove,
  module_exited, crash_report,
}
use acnet.Plugin.{AcConfig, Loader}
use acnet.Manager.State.{ActorManager}
use acnet.Manager.Loading.{library_file, generate_creator}
use acnet.Manager.Tables.{IsWellFormed}
use acnet.Manager.EventLoop.{
  Delivery, dispatch, deliver, reload_command, remove_command, shutdown, initial, open_loop,
  Progress, unread, loading, loaded, load_next, Action, delivers, shuts_down, reloads, removes,
  perform, Event, loads, acts, run_events, serve,
}
use acnet.Manager.WellFormed.{emit-IsWellFormed, add_child-IsWellFormed}
use acnet.Manager.WellFormed.Stopping.{tables-IsWellFormed}
use acnet.Manager.WellFormed.Handlers.{
  handle_cmd_exit-IsWellFormed, handle_cmd_reload-IsWellFormed, handle_event_exit-IsWellFormed,
  handle_event_crash-IsWellFormed, handle_cmd_remove-IsWellFormed,
}

dispatch-IsWellFormed :
    (t : EventType) (d : Delivery) (m : ActorManager)
    → IsWellFormed m
    → IsWellFormed (dispatch t d m).0
unfolding dispatch
dispatch-IsWellFormed none_event d m v = v
dispatch-IsWellFormed cmd_exit d m v = handle_cmd_exit-IsWellFormed m v
dispatch-IsWellFormed cmd_module_stop d m v = v
dispatch-IsWellFormed cmd_module_reload d m v = elim (Option-cases d.body.payload) [
  | inl e ↦ rw (e, dispatch) v
  | inr (name, e) ↦ rw (e, dispatch) (handle_cmd_reload-IsWellFormed d.environment name m v)
]
dispatch-IsWellFormed cmd_module_remove d m v = elim (Option-cases d.body.payload) [
  | inl e ↦ rw (e, dispatch) v
  | inr (name, e) ↦ rw (e, dispatch) (handle_cmd_remove-IsWellFormed name m v)
]
dispatch-IsWellFormed module_exited d m v =
    handle_event_exit-IsWellFormed d.environment.loader d.body.sender_id m v
dispatch-IsWellFormed crash_report d m v = handle_event_crash-IsWellFormed d.body.sender_id m v

pub deliver-IsWellFormed :
    (d : Delivery) (m : ActorManager) → IsWellFormed m → IsWellFormed (deliver d m).0
unfolding deliver
deliver-IsWellFormed d m v =
    let w = dispatch-IsWellFormed d.body.type d m v in
    elim (Bool-cases (dispatch d.body.type d m).1) [
      | inl e ↦
          simp e
            (tables-IsWellFormed (dispatch d.body.type d m).0 _ refl refl refl refl refl refl w)
      | inr e ↦ simp e (emit-IsWellFormed _ _ w)
    ]

shutdown-IsWellFormed : (m : ActorManager) → IsWellFormed m → IsWellFormed (shutdown m)
unfolding shutdown
shutdown-IsWellFormed m v = elim (Bool-cases m.is_running) [
  | inl e ↦ simp e (tables-IsWellFormed m _ refl refl refl refl refl refl v)
  | inr e ↦ simp e v
]

-- Every action keeps the invariant, whatever the environment answers and whatever is delivered.
pub perform-IsWellFormed :
    (a : Action) (m : ActorManager) → IsWellFormed m → IsWellFormed (perform a m).0
unfolding perform reload_command remove_command
perform-IsWellFormed (delivers d) m v = deliver-IsWellFormed d m v
perform-IsWellFormed shuts_down m v = shutdown-IsWellFormed m v
perform-IsWellFormed (reloads name) m v = tables-IsWellFormed m _ refl refl refl refl refl refl v
perform-IsWellFormed (removes name) m v = tables-IsWellFormed m _ refl refl refl refl refl refl v

pub open_loop-IsWellFormed : (m : ActorManager) → IsWellFormed m → IsWellFormed (open_loop m)
unfolding open_loop
open_loop-IsWellFormed m v = tables-IsWellFormed m _ refl refl refl refl refl refl v

pub load_next-IsWellFormed :
    (l : Loader) (g : Progress) (m : ActorManager)
    → IsWellFormed m
    → IsWellFormed (load_next l g m).1
unfolding load_next
load_next-IsWellFormed l unread m v = elim (Bool-cases (is_empty m.config.modules)) [
  | inl e ↦ rw e v
  | inr e ↦ rw e v
]
load_next-IsWellFormed l (loading c [] tasks) m v = emit-IsWellFormed _ _ v
load_next-IsWellFormed l (loading c (md ∷ mods) tasks) m v =
    elim (Option-cases (generate_creator l (library_file c md))) [
      | inl e ↦ rw (e, load_next) v
      | inr (lib, e) ↦ rw (e, load_next) (add_child-IsWellFormed md.module_name lib m v)
    ]
load_next-IsWellFormed l loaded m v = v

run_events-IsWellFormed :
    (es : List Event) (g : Progress) (m : ActorManager)
    → IsWellFormed m
    → IsWellFormed (run_events es g m).0
unfolding run_events
run_events-IsWellFormed [] g m v = v
run_events-IsWellFormed (loads l ∷ es) g m v =
    run_events-IsWellFormed es _ _ (load_next-IsWellFormed l g m v)
run_events-IsWellFormed (acts a ∷ es) g m v =
    let w = perform-IsWellFormed a m v in
    elim (Bool-cases (perform a m).1) [
      | inl e ↦ simp e w
      | inr e ↦ simp e (run_events-IsWellFormed es g _ w)
    ]

pub initial-IsWellFormed : (c : AcConfig) → IsWellFormed (initial c)
unfolding initial contains
initial-IsWellFormed c = record {
  positive = omega arith;
  table = tt;
  pending = record {
    reload_known = λ i h. cc;
    stop_known = λ i h. cc;
    restart_known = λ i h. cc;
    apart = λ i h. cc;
  };
}

-- From the start of `EventLoop` until the loop's coroutine returns, under every sequence of messages,
-- commands and rounds of `__load_modules`, and whatever the linker and the file system answer, the tables
-- of the manager are well formed: the children have distinct identifiers and distinct mailboxes, all
-- handed out before; the metadata of each carries its own identifier; only children are pending; and none
-- that is pending for a restart is pending for a reload or a stop. A round of `__load_modules` does not
-- fall into the handling of a message.
pub run-IsWellFormed : (c : AcConfig) (es : List Event) → IsWellFormed (serve c es).0
unfolding serve
run-IsWellFormed c es =
    run_events-IsWellFormed es unread _ (open_loop-IsWellFormed _ (initial-IsWellFormed c))
