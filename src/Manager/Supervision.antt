-- ===== src/Manager/Supervision.antt =====
-- What becomes of a child: restart after a crash, removal, reload, and a reload that fails.
use acnet.Prelude.{
  ◌≡◌, refl, ◌==◌, ==-refl, true, false, inl, inr, none, some, List, [], ◌∷◌, ◌∙◌, ap, sym,
  ==-to_eq, false≢true, if◌then◌else◌, ℕ, arith, Bytes, Option, bytes_eq, contains, insert,
  contains-insert, contains-erase, Bool-cases,
}
use acnet.Message.{EventMessage, cmd_module_stop}
use acnet.Plugin.{AcModule, Loader, LoadedModule}
use acnet.Manager.State.{
  ActorMetaData, Childrens, allocated, sent, enqueued, ActorManager, find, find_name, remove, emit,
  new_message, mark_stop, set_creator,
}
use acnet.Manager.Tables.{
  keys, keys-set_creator, IsTable, IsWellFormed, find-actor_id, contains_of_find, not-contains_zero,
}
use acnet.Manager.Loading.{
  library_file, generate_creator, launch, relaunch, reload_found, reload_search, reload_module,
  restart_module,
}
use acnet.Manager.Handlers.{
  stop_named, handle_cmd_remove, unmark, unmount, exit_found, handle_event_exit, handle_event_crash,
}

-- In a well-formed manager that runs, a child that has a library and is neither to be reloaded nor to be
-- stopped crashes, and its exit event follows: the event loop goes on, the table is as it was, the manager enqueues exactly one coroutine, for the
-- same identifier, mailbox and library, and the child is no longer pending for a restart.
pub crash_exit-restarts :
    (l : Loader) (i : ℕ) (d : ActorMetaData) (lib : LoadedModule) (m : ActorManager)
    → IsWellFormed m
    → m.is_running ≡ true
    → find i m.childrens ≡ some d
    → d.creator ≡ some lib
    → contains i m.pending_reload ≡ false
    → contains i m.pending_stop ≡ false
    → let (n, done) = handle_event_exit l i (handle_event_crash i m) in
      (done ≡ false)
      × (n.childrens ≡ m.childrens)
      × (n.log ≡ enqueued (record { library = lib; actor_id = i; mailbox = d.mailbox }) ∷ m.log)
      × (contains i n.pending_restart ≡ false)
unfolding handle_event_crash handle_event_exit exit_found unmark restart_module
crash_exit-restarts l i d lib m v r f c p s = ground (
  arith,
  find-actor_id m.next_id m.next_mailbox i m.childrens {d = d} v.table,
  contains-insert i i m.pending_restart,
  contains-erase i i (insert i m.pending_restart),
  ==-refl i,
)

stop_named-found :
    (name : Bytes) (cs : Childrens) (i : ℕ) (d : ActorMetaData) (m : ActorManager)
    → find_name name cs ≡ some (i, d)
    → stop_named name cs m
      ≡ emit (sent d.mailbox m.next_message) (mark_stop i (new_message 1 cmd_module_stop none m))
unfolding stop_named find_name
stop_named-found name [] i d m f = ground arith
stop_named-found name ((key, e) ∷ cs) i d m f = ground (arith, stop_named-found name cs i d m)

-- Where the running manager is told to remove a module, and the first child of that name is not to
-- be reloaded, one stop message with one reference goes to that child; and at the exit event of the
-- child, with or without its crash event before that, the child leaves the table, nothing is launched,
-- and the event loop goes on.
pub remove_crash_exit-unmounts :
    (l : Loader) (name : Bytes) (i : ℕ) (d : ActorMetaData) (m : ActorManager)
    → m.is_running ≡ true
    → find_name name m.childrens ≡ some (i, d)
    → find i m.childrens ≡ some d
    → contains i m.pending_reload ≡ false
    → let msg : EventMessage = record {
      ref = 1;
      type = cmd_module_stop;
      sender_id = 0;
      payload = none;
    } in
      let n = handle_cmd_remove name m in
      let (o, done) = handle_event_exit l i n in
      let (o', done') = handle_event_exit l i (handle_event_crash i n) in
      (n.log ≡ sent d.mailbox m.next_message ∷ allocated m.next_message msg ∷ m.log)
      × ((done ≡ false) × (o.childrens ≡ remove i m.childrens) × (o.log ≡ n.log))
      × ((done' ≡ false) × (o'.childrens ≡ remove i m.childrens) × (o'.log ≡ n.log))
unfolding handle_cmd_remove handle_event_crash handle_event_exit exit_found unmark unmount emit
    mark_stop new_message
remove_crash_exit-unmounts l name i d m r f g p = ground (
  arith,
  stop_named-found name m.childrens i d m,
  contains-insert i i m.pending_stop,
  contains-erase i i m.pending_restart,
  ==-refl i,
)

-- The first module of the configuration that has the name.
unfoldable pub first_named : Bytes → List AcModule → Option AcModule
first_named name [] = none
first_named name (md ∷ mods) =
    if bytes_eq name md.module_name then some md else first_named name mods

reload_search-first :
    (l : Loader) (mods : List AcModule) (i : ℕ) (name : Bytes) (m : ActorManager) (md : AcModule)
    → first_named name mods ≡ some md
    → reload_search l mods i name m ≡ reload_found l md i m
unfolding reload_search first_named
reload_search-first l [] i name m md f = ground arith
reload_search-first l (x ∷ mods) i name m md f =
    ground (arith, reload_search-first l mods i name m md)

find-set_creator :
    (i : ℕ) (lib : LoadedModule) (cs : Childrens) (d : ActorMetaData)
    → find i cs ≡ some d
    → find i (set_creator i lib cs) ≡ some (record d { creator = some lib })
unfolding find set_creator
find-set_creator i lib [] d f = ground arith
find-set_creator i lib ((key, e) ∷ cs) d f = ground (arith, find-set_creator i lib cs d)

-- The exit of a child that is to be reloaded by itself.
exit-reload_module :
    (l : Loader) (i : ℕ) (d : ActorMetaData) (m : ActorManager)
    → m.is_running ≡ true
    → m.reload_all_flag ≡ false
    → find i m.childrens ≡ some d
    → contains i m.pending_reload ≡ true
    → handle_event_exit l i m ≡ (reload_module l i d.module_name (unmark i m), false)
unfolding handle_event_exit exit_found unmark
exit-reload_module l i d m r a f p = rw (f, handle_event_exit, p) (ground arith)

reload_found-found :
    (l : Loader) (md : AcModule) (i : ℕ) (d : ActorMetaData) (lib : LoadedModule) (m : ActorManager)
    → (i == 0) ≡ false
    → generate_creator l (library_file m.config md) ≡ some lib
    → find i m.childrens ≡ some d
    → reload_found l md i m
      ≡ emit
          (enqueued (launch lib d.actor_id d.mailbox))
          (record m { childrens = set_creator i lib m.childrens })
unfolding reload_found relaunch
reload_found-found l md i d lib m z g f = rw (g, reload_found, z, f) refl

nonzero_child :
    (n k i : ℕ) (cs : Childrens) (d : ActorMetaData)
    → IsTable n k cs
    → find i cs ≡ some d
    → (i == 0) ≡ false
nonzero_child n k i cs d t f = elim (Bool-cases (i == 0)) [
  | inl e ↦ absurd (
      false≢true (
        sym (not-contains_zero n k cs t)
        ∙ (ap (λ j. contains j (keys cs)) (sym (==-to_eq i 0 e))
            ∙ contains_of_find i cs {d = d} f)))
  | inr e ↦ e
]

-- The exit of a running program's child `i` that is to be reloaded by itself, where the library of
-- the first configured module of its name loads: the event loop goes on, the entry of the child has
-- the new library and is otherwise as before, and exactly one coroutine is enqueued, with the new
-- library and the old identifier and mailbox.
pub exit-reloads :
    (l : Loader) (i : ℕ) (d : ActorMetaData) (md : AcModule) (lib : LoadedModule) (m : ActorManager)
    → IsWellFormed m
    → m.is_running ≡ true
    → m.reload_all_flag ≡ false
    → find i m.childrens ≡ some d
    → contains i m.pending_reload ≡ true
    → first_named d.module_name m.config.modules ≡ some md
    → generate_creator l (library_file m.config md) ≡ some lib
    → let (n, done) = handle_event_exit l i m in
      (done ≡ false)
      × (find i n.childrens ≡ some (record d { creator = some lib }))
      × (keys n.childrens ≡ keys m.childrens)
      × (n.log ≡ enqueued (record { library = lib; actor_id = i; mailbox = d.mailbox }) ∷ m.log)
      × (contains i n.pending_reload ≡ false)
unfolding reload_module launch emit unmark
exit-reloads l i d md lib m v r a f p q g =
    rw
      (
        exit-reload_module l i d m r a f p,
        reload_search-first l m.config.modules i d.module_name (unmark i m) md q,
        reload_found-found l md i d lib (unmark i m)
            (nonzero_child m.next_id m.next_mailbox i m.childrens d v.table f) g f,
      )
      (
        refl,
        find-set_creator i lib m.childrens d f,
        keys-set_creator i lib m.childrens,
        ground (arith, find-actor_id m.next_id m.next_mailbox i m.childrens {d = d} v.table),
        ground (arith, contains-erase i i m.pending_reload, ==-refl i),
      )
