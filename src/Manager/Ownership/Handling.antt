-- ===== src/Manager/Ownership/Handling.antt =====
-- The handlers and the commands keep `IsBalanced`, and so does every run.
use acnet.Prelude.{
  refl, ◌&&◌, not, Bool, false, inl, inr, none, some, List, [], ◌∷◌, ℕ, arith, Bytes, Option,
  is_empty, contains, Bool-cases, Option-cases,
}
use acnet.Message.{
  EventType, none_event, cmd_exit, cmd_module_stop, cmd_module_reload, cmd_module_remove,
  module_exited, crash_report,
}
use acnet.Plugin.{AcConfig, Loader, update_config}
use acnet.Manager.State.{
  ActorMetaData, ActorManager, sent, enqueued_batch, find, emit, new_message, own_mailbox,
}
use acnet.Manager.Loading.{library_file, generate_creator}
use acnet.Manager.Tables.{IsWellFormed}
use acnet.Manager.Handlers.{
  Environment, search_module_and_remove, handle_cmd_reload, handle_cmd_remove, unmark, unmount,
  exit_found, handle_event_exit, handle_event_crash,
}
use acnet.Manager.EventLoop.{
  Delivery, dispatch, count_down, deliver, reload_command, remove_command, shutdown, initial,
  open_loop, Progress, unread, loading, loaded, load_next, Action, delivers, shuts_down, reloads,
  removes, perform, Event, loads, acts, run_events, serve,
}
use acnet.Manager.Ownership.{
  refs, uses, IsBalanced, IsQuiet-IsBalanced, IsQuiet-emit, IsQuiet-refl, IsQuiet-of_mail,
  mail-add_child, reload_module-IsQuiet, reload_all_modules-IsQuiet, restart_module-IsQuiet,
}
use acnet.Manager.WellFormed.Handling.{
  perform-IsWellFormed, open_loop-IsWellFormed, load_next-IsWellFormed, initial-IsWellFormed,
}
use acnet.Manager.Ownership.Stopping.{
  Uses-sent, settle, search_module_and_remove-IsBalanced, handle_cmd_exit-IsBalanced,
  stop_named-IsBalanced,
}

unmark-IsBalanced : (i : ℕ) (m : ActorManager) → IsBalanced m → IsBalanced (unmark i m)
unfolding unmark
unmark-IsBalanced i m b = record { balanced = b.balanced; fresh = b.fresh }

exit_found-IsBalanced :
    (l : Loader) (i : ℕ) (d : ActorMetaData) (r s t : Bool) (m : ActorManager)
    → IsBalanced m
    → IsBalanced (exit_found l i d r s t m).0
unfolding exit_found unmount
exit_found-IsBalanced l i d r s t m b = elim (Bool-cases (m.is_running && r)) [
  | inl a ↦ elim (Bool-cases m.reload_all_flag) [
    | inl f ↦ elim (Bool-cases (is_empty m.pending_reload)) [
      | inl g ↦ simp (a, f, g) (IsQuiet-IsBalanced m _ (reload_all_modules-IsQuiet l m) b)
      | inr g ↦ simp (a, f, g) b
    ]
    | inr f ↦ simp (a, f) (IsQuiet-IsBalanced m _ (reload_module-IsQuiet l i d.module_name m) b)
  ]
  | inr a ↦ elim (Bool-cases (m.is_running && (t && not s))) [
    | inl f ↦ simp (a, f) (IsQuiet-IsBalanced m _ (restart_module-IsQuiet d m) b)
    | inr f ↦ simp (a, f) (record { balanced = b.balanced; fresh = b.fresh })
  ]
]

handle_event_exit-IsBalanced :
    (l : Loader) (i : ℕ) (m : ActorManager) → IsBalanced m → IsBalanced (handle_event_exit l i m).0
unfolding handle_event_exit
handle_event_exit-IsBalanced l i m b = elim (Option-cases (find i m.childrens)) [
  | inl e ↦ rw (e, handle_event_exit) (unmark-IsBalanced i m b)
  | inr (d, e) ↦
      rw (e, handle_event_exit) (exit_found-IsBalanced l i d _ _ _ _ (unmark-IsBalanced i m b))
]

handle_event_crash-IsBalanced :
    (i : ℕ) (m : ActorManager) → IsBalanced m → IsBalanced (handle_event_crash i m)
unfolding handle_event_crash
handle_event_crash-IsBalanced i m b = elim (Option-cases (find i m.childrens)) [
  | inl e ↦ rw (e, handle_event_crash) b
  | inr (d, e) ↦
      elim (Bool-cases
        (m.is_running && (not (contains i m.pending_reload) && not (contains i m.pending_stop)))) [
          | inl f ↦
              rw (e, handle_event_crash, f) (record { balanced = b.balanced; fresh = b.fresh })
          | inr f ↦ rw (e, handle_event_crash, f) b
        ]
]

handle_cmd_reload-IsBalanced :
    (env : Environment) (name : Bytes) (m : ActorManager)
    → IsWellFormed m
    → IsBalanced m
    → IsBalanced (handle_cmd_reload env name m)
unfolding handle_cmd_reload
handle_cmd_reload-IsBalanced env name m v b =
    let n : ActorManager = record m { config = (update_config env.host m.config).0 } in
    let w =
      search_module_and_remove-IsBalanced env.loader name n
        (record { positive = v.positive; table = v.table; pending = v.pending })
        (record { balanced = b.balanced; fresh = b.fresh }) in
    elim (Bool-cases (update_config env.host m.config).1) [
      | inl e ↦ elim (Bool-cases (search_module_and_remove env.loader name n).1) [
        | inl f ↦ rw (e, f) w
        | inr f ↦ rw (e, f) (IsQuiet-IsBalanced _ _ (reload_module-IsQuiet env.loader 0 name _) w)
      ]
      | inr e ↦ rw e b
    ]

dispatch-IsBalanced :
    (t : EventType) (d : Delivery) (m : ActorManager)
    → IsWellFormed m
    → IsBalanced m
    → IsBalanced (dispatch t d m).0
unfolding dispatch handle_cmd_remove
dispatch-IsBalanced none_event d m v b = b
dispatch-IsBalanced cmd_exit d m v b = handle_cmd_exit-IsBalanced m b
dispatch-IsBalanced cmd_module_stop d m v b = b
dispatch-IsBalanced cmd_module_reload d m v b = elim (Option-cases d.body.payload) [
  | inl e ↦ rw (e, dispatch) b
  | inr (name, e) ↦ rw (e, dispatch) (handle_cmd_reload-IsBalanced d.environment name m v b)
]
dispatch-IsBalanced cmd_module_remove d m v b = elim (Option-cases d.body.payload) [
  | inl e ↦ rw (e, dispatch) b
  | inr (name, e) ↦ rw (e, dispatch) (stop_named-IsBalanced name m.childrens m b)
]
dispatch-IsBalanced module_exited d m v b =
    handle_event_exit-IsBalanced d.environment.loader d.body.sender_id m b
dispatch-IsBalanced crash_report d m v b = handle_event_crash-IsBalanced d.body.sender_id m b

deliver-IsBalanced :
    (d : Delivery) (m : ActorManager) → IsWellFormed m → IsBalanced m → IsBalanced (deliver d m).0
unfolding deliver emit refs uses count_down
deliver-IsBalanced d m v b =
    let c = dispatch-IsBalanced d.body.type d m v b in
    elim (Bool-cases (dispatch d.body.type d m).1) [
      | inl e ↦ simp e (record {
        balanced = λ i. omega (arith, c.balanced i);
        fresh = λ i h. omega (arith, c.fresh i);
      })
      | inr e ↦ simp e (record {
        balanced = λ i. omega (arith, c.balanced i);
        fresh = λ i h. omega (arith, c.fresh i);
      })
    ]

post-IsBalanced :
    (t : EventType) (p : Option Bytes) (m : ActorManager)
    → IsBalanced m
    → IsBalanced (emit (sent own_mailbox m.next_message) (new_message 1 t p m))
post-IsBalanced t p m b =
    settle 1 t p m _ b (Uses-sent m.next_message own_mailbox (new_message 1 t p m))

shutdown-IsBalanced : (m : ActorManager) → IsBalanced m → IsBalanced (shutdown m)
unfolding shutdown
shutdown-IsBalanced m b = elim (Bool-cases m.is_running) [
  | inl e ↦ simp e (
      post-IsBalanced cmd_exit none (record m { is_running = false })
        (record { balanced = b.balanced; fresh = b.fresh }))
  | inr e ↦ simp e b
]

perform-IsBalanced :
    (a : Action) (m : ActorManager) → IsWellFormed m → IsBalanced m → IsBalanced (perform a m).0
unfolding perform reload_command remove_command
perform-IsBalanced (delivers d) m v b = deliver-IsBalanced d m v b
perform-IsBalanced shuts_down m v b = shutdown-IsBalanced m b
perform-IsBalanced (reloads name) m v b = post-IsBalanced cmd_module_reload (some name) m b
perform-IsBalanced (removes name) m v b = post-IsBalanced cmd_module_remove (some name) m b

load_next-IsBalanced :
    (l : Loader) (g : Progress) (m : ActorManager) → IsBalanced m → IsBalanced (load_next l g m).1
unfolding load_next
load_next-IsBalanced l unread m b = elim (Bool-cases (is_empty m.config.modules)) [
  | inl e ↦ rw e b
  | inr e ↦ rw e b
]
load_next-IsBalanced l (loading c [] tasks) m b =
    IsQuiet-IsBalanced m _
      (IsQuiet-emit (enqueued_batch tasks) m m (λ i. (refl, refl)) (IsQuiet-refl m)) b
load_next-IsBalanced l (loading c (md ∷ mods) tasks) m b =
    elim (Option-cases (generate_creator l (library_file c md))) [
      | inl e ↦ rw (e, load_next) b
      | inr (lib, e) ↦
          rw (e, load_next)
            (IsQuiet-IsBalanced m _ (IsQuiet-of_mail m _ (mail-add_child md.module_name lib m)) b)
    ]
load_next-IsBalanced l loaded m b = b

run_events-IsBalanced :
    (es : List Event) (g : Progress) (m : ActorManager)
    → IsWellFormed m
    → IsBalanced m
    → IsBalanced (run_events es g m).0
unfolding run_events
run_events-IsBalanced [] g m v b = b
run_events-IsBalanced (loads l ∷ es) g m v b =
    run_events-IsBalanced es _ _ (load_next-IsWellFormed l g m v) (load_next-IsBalanced l g m b)
run_events-IsBalanced (acts a ∷ es) g m v b =
    let c = perform-IsBalanced a m v b in
    elim (Bool-cases (perform a m).1) [
      | inl e ↦ simp e c
      | inr e ↦ simp e (run_events-IsBalanced es g _ (perform-IsWellFormed a m v) c)
    ]

-- From the start of `EventLoop` until the loop's coroutine returns, under every sequence of messages,
-- commands and rounds of `__load_modules`: each message that the manager has allocated got exactly as
-- many references as it was sent to mailboxes and released by its handlers, and messages not yet
-- allocated have no reference in the log. (The release of a received message by the event loop is the
-- receiver's, and is not counted.) A round of `__load_modules` does not fall into the handling of a
-- message.
pub run-IsBalanced : (c : AcConfig) (es : List Event) → IsBalanced (serve c es).0
unfolding serve
run-IsBalanced c es =
    run_events-IsBalanced es unread _ (open_loop-IsWellFormed _ (initial-IsWellFormed c)) (
      unfold open_loop initial emit refs uses in
      record { balanced = λ i. refl; fresh = λ i h. refl })
