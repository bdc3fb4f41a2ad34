-- ===== src/Manager/Presence/Handlers.antt =====
-- Which children the handlers keep in the table.
use acnet.Prelude.{
  ◌≡◌, ◌==◌, ◌&&◌, ◌||◌, not, Bool, false, inl, inr, List, [], ◌∷◌, ℕ, Bytes, bytes_eq, codes,
  is_empty, contains, Bool-cases, Option-cases,
}
use acnet.Message.{
  EventType, none_event, cmd_exit, cmd_module_stop, cmd_module_reload, cmd_module_remove,
  module_exited, crash_report,
}
use acnet.Plugin.{Loader, update_config}
use acnet.Manager.State.{ActorMetaData, ActorManager, find, emit, new_message}
use acnet.Manager.Handlers.{
  Environment, stop_all_for_reload, stop_named_for_reload, stop_for_all, stop_for_one,
  search_module_and_remove, handle_cmd_exit, handle_cmd_reload, handle_cmd_remove, unmark, unmount,
  exit_found, handle_event_exit, handle_event_crash,
}
use acnet.Manager.EventLoop.{Delivery, dispatch, Action, delivers, shuts_down, reloads, removes}
use acnet.Manager.Presence.{
  Has, contains-remove_ne, load_modules-Has, reload_module-Has, reload_all_modules-Has,
  restart_module-Has, stop_all_for_reload-Has, stop_named_for_reload-Has, stop_each-Has,
  stop_named-Has,
}

-- The message is the exit event of `i`.
pub is_exit_of : ℕ → Delivery → EventType → Bool
is_exit_of i d module_exited = i == d.body.sender_id
is_exit_of i d _ = false

-- Some action delivers the exit event of `i`.
unfoldable pub exits : ℕ → List Action → Bool
unfolding is_exit_of
exits i [] = false
exits i (delivers d ∷ as') = is_exit_of i d d.body.type || exits i as'
exits i (shuts_down ∷ as') = exits i as'
exits i (reloads name ∷ as') = exits i as'
exits i (removes name ∷ as') = exits i as'

module _ (i : ℕ) where
  stop_for_all-Has :
      (l : Loader) (msg : ℕ) (m : ActorManager) → Has i m → Has i (stop_for_all l msg m).0
  unfolding stop_for_all emit
  stop_for_all-Has l msg m h =
      let k = stop_all_for_reload-Has i msg m.childrens m h in
      elim (Bool-cases (is_empty (stop_all_for_reload msg m.childrens m).pending_reload)) [
        | inl e ↦ simp e (load_modules-Has i l _ k)
        | inr e ↦ simp e k
      ]

  stop_for_one-Has :
      (name : Bytes) (msg : ℕ) (m : ActorManager) → Has i m → Has i (stop_for_one name msg m).0
  unfolding stop_for_one emit
  stop_for_one-Has name msg m h =
      let k = stop_named_for_reload-Has i name msg m.childrens m h in
      elim (Bool-cases (stop_named_for_reload name msg m.childrens m).1) [
        | inl e ↦ simp e k
        | inr e ↦ simp e k
      ]

  search_module_and_remove-Has :
      (l : Loader) (name : Bytes) (m : ActorManager)
      → Has i m
      → Has i (search_module_and_remove l name m).0
  unfolding search_module_and_remove new_message emit
  search_module_and_remove-Has l name m h = elim (Bool-cases (bytes_eq name (codes "all"))) [
    | inl e ↦ simp e (stop_for_all-Has l _ _ h)
    | inr e ↦ simp e (stop_for_one-Has name _ _ h)
  ]

  handle_cmd_exit-Has : (m : ActorManager) → Has i m → Has i (handle_cmd_exit m).0
  unfolding handle_cmd_exit new_message emit
  handle_cmd_exit-Has m h = elim (Bool-cases (is_empty m.childrens)) [
    | inl e ↦ simp e h
    | inr e ↦ simp e (stop_each-Has i _ m.childrens _ h)
  ]

  handle_cmd_reload-Has :
      (env : Environment) (name : Bytes) (m : ActorManager)
      → Has i m
      → Has i (handle_cmd_reload env name m)
  unfolding handle_cmd_reload
  handle_cmd_reload-Has env name m h =
      let n : ActorManager = record m { config = (update_config env.host m.config).0 } in
      let k = search_module_and_remove-Has env.loader name n h in
      elim (Bool-cases (update_config env.host m.config).1) [
        | inl e ↦ elim (Bool-cases (search_module_and_remove env.loader name n).1) [
          | inl f ↦ rw (e, f) k
          | inr f ↦ rw (e, f) (reload_module-Has i env.loader 0 name _ k)
        ]
        | inr e ↦ rw e h
      ]

  exit_found-Has :
      (l : Loader) (j : ℕ) (d : ActorMetaData) (r s t : Bool) (m : ActorManager)
      → (i == j) ≡ false
      → Has i m
      → Has i (exit_found l j d r s t m).0
  unfolding exit_found unmount
  exit_found-Has l j d r s t m ne h = elim (Bool-cases (m.is_running && r)) [
    | inl a ↦ elim (Bool-cases m.reload_all_flag) [
      | inl f ↦ elim (Bool-cases (is_empty m.pending_reload)) [
        | inl g ↦ simp (a, f, g) (reload_all_modules-Has i l m h)
        | inr g ↦ simp (a, f, g) h
      ]
      | inr f ↦ simp (a, f) (reload_module-Has i l j d.module_name m h)
    ]
    | inr a ↦ elim (Bool-cases (m.is_running && (t && not s))) [
      | inl f ↦ simp (a, f) (restart_module-Has i d m h)
      | inr f ↦ simp (a, f) (contains-remove_ne i j m.childrens ne h)
    ]
  ]

  handle_event_exit-Has :
      (l : Loader) (j : ℕ) (m : ActorManager)
      → (i == j) ≡ false
      → Has i m
      → Has i (handle_event_exit l j m).0
  unfolding handle_event_exit unmark
  handle_event_exit-Has l j m ne h = elim (Option-cases (find j m.childrens)) [
    | inl e ↦ rw (e, handle_event_exit) h
    | inr (d, e) ↦ rw (e, handle_event_exit) (exit_found-Has l j d _ _ _ _ ne h)
  ]

  handle_event_crash-Has : (j : ℕ) (m : ActorManager) → Has i m → Has i (handle_event_crash j m)
  unfolding handle_event_crash
  handle_event_crash-Has j m h = elim (Option-cases (find j m.childrens)) [
    | inl e ↦ rw (e, handle_event_crash) h
    | inr (d, e) ↦
        elim (Bool-cases (
          m.is_running && (not (contains j m.pending_reload) && not (contains j m.pending_stop)))) [
            | inl f ↦ rw (e, handle_event_crash, f) h
            | inr f ↦ rw (e, handle_event_crash, f) h
          ]
  ]

  pub dispatch-Has :
      (t : EventType) (d : Delivery) (m : ActorManager)
      → is_exit_of i d t ≡ false
      → Has i m
      → Has i (dispatch t d m).0
  unfolding dispatch is_exit_of handle_cmd_remove
  dispatch-Has none_event d m x h = h
  dispatch-Has cmd_exit d m x h = handle_cmd_exit-Has m h
  dispatch-Has cmd_module_stop d m x h = h
  dispatch-Has cmd_module_reload d m x h = elim (Option-cases d.body.payload) [
    | inl e ↦ rw (e, dispatch) h
    | inr (name, e) ↦ rw (e, dispatch) (handle_cmd_reload-Has d.environment name m h)
  ]
  dispatch-Has cmd_module_remove d m x h = elim (Option-cases d.body.payload) [
    | inl e ↦ rw (e, dispatch) h
    | inr (name, e) ↦ rw (e, dispatch) (stop_named-Has i name m.childrens m h)
  ]
  dispatch-Has module_exited d m x h =
      handle_event_exit-Has d.environment.loader d.body.sender_id m x h
  dispatch-Has crash_report d m x h = handle_event_crash-Has d.body.sender_id m h
