-- ===== src/Manager/Presence.antt =====
-- A child stays in the table until its own exit event, and the event loop does not return before: what
-- the loading and the loops keep.
pub mod Handlers
pub mod Handling
use acnet.Prelude.{
  ◌≡◌, refl, ◌==◌, ==-to_eq, ◌&&◌, ◌||◌, not, Bool, true, false, inl, inr, none, some, List, [],
  ◌∷◌, ℕ, arith, Bytes, Option, bytes_eq, codes, is_empty, contains, length, max, Bool-cases,
  Option-cases,
}
use acnet.Message.{
  EventType, none_event, cmd_exit, cmd_module_stop, cmd_module_reload, cmd_module_remove,
  module_exited, crash_report,
}
use acnet.Plugin.{AcModule, AcConfig, Loader, LoadedModule, update_config}
use acnet.Manager.State.{
  ActorMetaData, Childrens, Launch, ActorManager, sent, released, find, find_name, remove, emit,
  new_message, mark_reload, mark_stop,
}
use acnet.Manager.Tables.{keys, keys-set_creator}
use acnet.Manager.Loading.{
  library_file, generate_creator, add_child, load_each, load_modules, relaunch, reload_found,
  reload_search, reload_module, reload_one, reload_each, reload_all_modules, restart_module,
}
use acnet.Manager.Handlers.{
  Environment, stop_all_for_reload, stop_named_for_reload, stop_for_all, stop_for_one,
  search_module_and_remove, stop_each, handle_cmd_exit, handle_cmd_reload, stop_named,
  handle_cmd_remove, unmark, unmount, exit_found, handle_event_exit, handle_event_crash,
}
use acnet.Manager.EventLoop.{
  Delivery, dispatch, count_down, deliver, reload_command, remove_command, shutdown, Action,
  delivers, shuts_down, reloads, removes, perform, run,
}

-- The child `i` is in the table.
abbrev pub Has : ℕ → ActorManager → Type 0
Has i m = contains i (keys m.childrens) ≡ true

pub contains-remove_ne :
    (j i : ℕ) (cs : Childrens)
    → (j == i) ≡ false
    → contains j (keys cs) ≡ true
    → contains j (keys (remove i cs)) ≡ true
unfolding remove contains
contains-remove_ne j i [] e h = h
contains-remove_ne j i ((key, d) ∷ cs) e h = ground (arith, contains-remove_ne j i cs)

module _ (i : ℕ) where
  add_child-Has :
      (name : Bytes) (lib : LoadedModule) (m : ActorManager)
      → Has i m
      → Has i (add_child name lib m).0
  unfolding add_child contains
  add_child-Has name lib m h = ground arith

  relaunch-Has :
      (j : ℕ) (d : ActorMetaData) (lib : LoadedModule) (m : ActorManager)
      → Has i m
      → Has i (relaunch j d lib m).0
  unfolding relaunch
  relaunch-Has j d lib m h = rw (keys-set_creator j lib m.childrens) h

  load_each-Has :
      (l : Loader) (c : AcConfig) (mods : List AcModule) (m : ActorManager) (tasks : List Launch)
      → Has i m
      → Has i (load_each l c mods m tasks).0
  unfolding load_each
  load_each-Has l c [] m tasks h = h
  load_each-Has l c (md ∷ mods) m tasks h =
      elim (Option-cases (generate_creator l (library_file c md))) [
        | inl e ↦ rw (e, load_each) (load_each-Has l c mods m tasks h)
        | inr (lib, e) ↦
            rw (e, load_each) (load_each-Has l c mods _ _ (add_child-Has md.module_name lib m h))
      ]

  pub load_modules-Has : (l : Loader) (m : ActorManager) → Has i m → Has i (load_modules l m)
  unfolding load_modules emit
  load_modules-Has l m h = elim (Bool-cases (is_empty m.config.modules)) [
    | inl e ↦ simp e h
    | inr e ↦ simp e (load_each-Has l m.config m.config.modules m [] h)
  ]

  reload_found-Has :
      (l : Loader) (md : AcModule) (j : ℕ) (m : ActorManager)
      → Has i m
      → Has i (reload_found l md j m)
  unfolding reload_found emit
  reload_found-Has l md j m h =
      elim (Option-cases (generate_creator l (library_file m.config md))) [
        | inl e ↦ rw (e, reload_found) h
        | inr (lib, e) ↦ elim (Bool-cases (j == 0)) [
          | inl z ↦ rw (e, reload_found, z) (add_child-Has md.module_name lib m h)
          | inr z ↦ elim (Option-cases (find j m.childrens)) [
            | inl n ↦ rw (e, reload_found, z, n) h
            | inr (d, s) ↦ rw (e, reload_found, z, s) (relaunch-Has j d lib m h)
          ]
        ]
      ]

  reload_search-Has :
      (l : Loader) (mods : List AcModule) (j : ℕ) (name : Bytes) (m : ActorManager)
      → Has i m
      → Has i (reload_search l mods j name m)
  unfolding reload_search
  reload_search-Has l [] j name m h = h
  reload_search-Has l (md ∷ mods) j name m h = elim (Bool-cases (bytes_eq name md.module_name)) [
    | inl e ↦ rw e (reload_found-Has l md j m h)
    | inr e ↦ rw e (reload_search-Has l mods j name m h)
  ]

  pub reload_module-Has :
      (l : Loader) (j : ℕ) (name : Bytes) (m : ActorManager)
      → Has i m
      → Has i (reload_module l j name m)
  unfolding reload_module
  reload_module-Has l j name m h = reload_search-Has l m.config.modules j name m h

  reload_one-Has :
      (md : AcModule) (lib : LoadedModule) (m : ActorManager)
      → Has i m
      → Has i (reload_one md lib m).0
  unfolding reload_one
  reload_one-Has md lib m h = elim (Option-cases (find_name md.module_name m.childrens)) [
    | inl e ↦ rw (e, reload_one) (add_child-Has md.module_name lib m h)
    | inr ((j, d), e) ↦ rw (e, reload_one) (relaunch-Has j d lib m h)
  ]

  reload_each-Has :
      (l : Loader) (c : AcConfig) (mods : List AcModule) (m : ActorManager) (tasks : List Launch)
      → Has i m
      → Has i (reload_each l c mods m tasks).0
  unfolding reload_each
  reload_each-Has l c [] m tasks h = h
  reload_each-Has l c (md ∷ mods) m tasks h =
      elim (Option-cases (generate_creator l (library_file c md))) [
        | inl e ↦ rw (e, reload_each) (reload_each-Has l c mods m tasks h)
        | inr (lib, e) ↦
            rw (e, reload_each) (reload_each-Has l c mods _ _ (reload_one-Has md lib m h))
      ]

  pub reload_all_modules-Has :
      (l : Loader) (m : ActorManager) → Has i m → Has i (reload_all_modules l m)
  unfolding reload_all_modules emit
  reload_all_modules-Has l m h = elim (Bool-cases (is_empty m.config.modules)) [
    | inl e ↦ simp e h
    | inr e ↦ simp e (reload_each-Has l m.config m.config.modules m [] h)
  ]

  pub restart_module-Has :
      (d : ActorMetaData) (m : ActorManager) → Has i m → Has i (restart_module d m)
  unfolding restart_module emit
  restart_module-Has d m h = elim (Option-cases d.creator) [
    | inl e ↦ rw (e, restart_module) h
    | inr (lib, e) ↦ rw (e, restart_module) h
  ]

  pub stop_all_for_reload-Has :
      (msg : ℕ) (cs : Childrens) (m : ActorManager) → Has i m → Has i (stop_all_for_reload msg cs m)
  unfolding stop_all_for_reload mark_reload emit
  stop_all_for_reload-Has msg [] m h = h
  stop_all_for_reload-Has msg ((j, d) ∷ cs) m h = stop_all_for_reload-Has msg cs _ h

  pub stop_named_for_reload-Has :
      (name : Bytes) (msg : ℕ) (cs : Childrens) (m : ActorManager)
      → Has i m
      → Has i (stop_named_for_reload name msg cs m).0
  unfolding stop_named_for_reload mark_reload emit
  stop_named_for_reload-Has name msg [] m h = h
  stop_named_for_reload-Has name msg ((j, d) ∷ cs) m h =
      elim (Bool-cases (bytes_eq d.module_name name)) [
        | inl e ↦ rw e h
        | inr e ↦ rw e (stop_named_for_reload-Has name msg cs m h)
      ]

  pub stop_each-Has :
      (msg : ℕ) (cs : Childrens) (m : ActorManager) → Has i m → Has i (stop_each msg cs m)
  unfolding stop_each mark_stop emit
  stop_each-Has msg [] m h = h
  stop_each-Has msg ((j, d) ∷ cs) m h = stop_each-Has msg cs _ h

  pub stop_named-Has :
      (name : Bytes) (cs : Childrens) (m : ActorManager) → Has i m → Has i (stop_named name cs m)
  unfolding stop_named mark_stop emit new_message
  stop_named-Has name [] m h = h
  stop_named-Has name ((j, d) ∷ cs) m h = elim (Bool-cases (bytes_eq d.module_name name)) [
    | inl e ↦ rw e h
    | inr e ↦ rw e (stop_named-Has name cs m h)
  ]
