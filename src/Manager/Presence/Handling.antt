-- ===== src/Manager/Presence/Handling.antt =====
-- A child stays in the table until its own exit event, and the event loop does not return before.
use acnet.Prelude.{
  ◌≡◌, refl, Bool, true, false, inl, inr, List, [], ◌∷◌, ℕ, arith, is_empty, contains, Bool-cases,
  Option-cases,
}
use acnet.Message.{
  EventType, none_event, cmd_exit, cmd_module_stop, cmd_module_reload, cmd_module_remove,
  module_exited, crash_report,
}
use acnet.Plugin.{Loader}
use acnet.Manager.State.{ActorMetaData, Childrens, ActorManager, find, emit, new_message}
use acnet.Manager.Tables.{keys}
use acnet.Manager.Handlers.{handle_cmd_exit, unmark, unmount, exit_found, handle_event_exit}
use acnet.Manager.EventLoop.{
  Delivery, dispatch, deliver, reload_command, remove_command, shutdown, Action, delivers,
  shuts_down, reloads, removes, perform, run,
}
use acnet.Manager.Presence.{Has}
use acnet.Manager.Presence.Handlers.{is_exit_of, exits, dispatch-Has}

-- Only the command to exit and an exit event end the loop, and only on an empty table.
exit_found-done :
    (l : Loader) (j : ℕ) (d : ActorMetaData) (r s t : Bool) (m : ActorManager)
    → (exit_found l j d r s t m).1 ≡ true
    → is_empty (exit_found l j d r s t m).0.childrens ≡ true
unfolding exit_found unmount
exit_found-done l j d r s t m e = ground arith

handle_event_exit-done :
    (l : Loader) (j : ℕ) (m : ActorManager)
    → (handle_event_exit l j m).1 ≡ true
    → is_empty (handle_event_exit l j m).0.childrens ≡ true
unfolding handle_event_exit
handle_event_exit-done l j m e = elim (Option-cases (find j m.childrens)) [
  | inl n ↦ ground arith
  | inr (d, n) ↦ ground (
    arith,
    exit_found-done l j d (contains j m.pending_reload) (contains j m.pending_stop)
        (contains j m.pending_restart) (unmark j m),
  )
]

handle_cmd_exit-done :
    (m : ActorManager)
    → (handle_cmd_exit m).1 ≡ true
    → is_empty (handle_cmd_exit m).0.childrens ≡ true
unfolding handle_cmd_exit
handle_cmd_exit-done m e = ground arith

dispatch-done :
    (t : EventType) (d : Delivery) (m : ActorManager)
    → (dispatch t d m).1 ≡ true
    → is_empty (dispatch t d m).0.childrens ≡ true
unfolding dispatch
dispatch-done none_event d m e = ground arith
dispatch-done cmd_exit d m e = handle_cmd_exit-done m e
dispatch-done cmd_module_stop d m e = ground arith
dispatch-done cmd_module_reload d m e = ground arith
dispatch-done cmd_module_remove d m e = ground arith
dispatch-done module_exited d m e = handle_event_exit-done d.environment.loader d.body.sender_id m e
dispatch-done crash_report d m e = ground arith

no_child_of_is_empty : (i : ℕ) (cs : Childrens) → is_empty cs ≡ true → contains i (keys cs) ≡ false
unfolding contains
no_child_of_is_empty i [] h = refl
no_child_of_is_empty i (c ∷ cs) h = ground arith

-- What one action does to a child that is in the table, if it is not the child's exit event.
record Stays (i : ℕ) (r : ActorManager × Bool) : Type 0 where
  present : Has i r.0
  goes_on : r.1 ≡ false

deliver-Stays :
    (i : ℕ) (d : Delivery) (m : ActorManager)
    → is_exit_of i d d.body.type ≡ false
    → Has i m
    → Stays i (deliver d m)
unfolding deliver emit
deliver-Stays i d m x h =
    let k = dispatch-Has i d.body.type d m x h in
    elim (Bool-cases (dispatch d.body.type d m).1) [
      | inl e ↦
          let gone = no_child_of_is_empty i _ (dispatch-done d.body.type d m e) in
          absurd (ground arith)
      | inr e ↦ simp e (record { present = k; goes_on = refl })
    ]

perform-Stays :
    (i : ℕ) (a : Action) (m : ActorManager)
    → exits i (a ∷ []) ≡ false
    → Has i m
    → Stays i (perform a m)
unfolding perform exits reload_command remove_command shutdown new_message emit
perform-Stays i (delivers d) m x h = deliver-Stays i d m (ground arith) h
perform-Stays i shuts_down m x h = elim (Bool-cases m.is_running) [
  | inl e ↦ simp e (record { present = h; goes_on = refl })
  | inr e ↦ simp e (record { present = h; goes_on = refl })
]
perform-Stays i (reloads name) m x h = record { present = h; goes_on = refl }
perform-Stays i (removes name) m x h = record { present = h; goes_on = refl }

exits-cons :
    (i : ℕ) (a : Action) (as' : List Action)
    → exits i (a ∷ as') ≡ false
    → (exits i (a ∷ []) ≡ false) × (exits i as' ≡ false)
unfolding exits
exits-cons i (delivers d) as' x = ground arith
exits-cons i shuts_down as' x = (refl, x)
exits-cons i (reloads name) as' x = (refl, x)
exits-cons i (removes name) as' x = (refl, x)

run-Stays :
    (i : ℕ) (as' : List Action) (m : ActorManager)
    → exits i as' ≡ false
    → Has i m
    → Stays i (run as' m)
unfolding run
run-Stays i [] m x h = record { present = h; goes_on = refl }
run-Stays i (a ∷ as') m x h =
    let (x', xs) = exits-cons i a as' x in
    let k = perform-Stays i a m x' h in simp (k.goes_on) (run-Stays i as' _ xs k.present)

-- As long as the exit event of a child of the table has not been delivered, the child stays in the
-- table and the event loop does not return: under every sequence of messages and commands, whatever
-- the environment answers.
pub run-waits :
    (i : ℕ) (as' : List Action) (m : ActorManager)
    → exits i as' ≡ false
    → Has i m
    → Has i (run as' m).0 × ((run as' m).1 ≡ false)
run-waits i as' m x h = let k = run-Stays i as' m x h in (k.present, k.goes_on)
