-- ===== src/Manager/Handlers.antt =====
-- The handlers of the manager's messages, and the commands that other threads give.
use acnet.Prelude.{
  ℕ, if◌then◌else◌, Bool, true, false, not, ◌&&◌, none, some, [], ◌∷◌, Bytes, codes, bytes_eq,
  is_empty, length, contains, insert, erase, max,
}
use acnet.Message.{cmd_module_stop}
use acnet.Plugin.{Host, Loader, update_config}
use acnet.Manager.State.{
  ActorMetaData, Childrens, sent, released, ActorManager, find, remove, emit, new_message,
  mark_reload, mark_stop,
}
use acnet.Manager.Loading.{load_modules, reload_module, reload_all_modules, restart_module}

-- What the handler of one message gets from outside.
pub record Environment : Type 0 where
  pub loader : Loader
  pub host : Host

-- The loop of `__search_module_and_remove` under `reload_all_flag_`.
unfoldable pub stop_all_for_reload : ℕ → Childrens → ActorManager → ActorManager
unfolding emit
stop_all_for_reload msg [] m = m
stop_all_for_reload msg ((id, metadata) ∷ cs) m =
    stop_all_for_reload msg cs (mark_reload id (emit (sent metadata.mailbox msg) m))

-- The same loop without the flag: it returns at the first child of that name.
unfoldable pub stop_named_for_reload : Bytes → ℕ → Childrens → ActorManager → ActorManager × Bool
unfolding emit
stop_named_for_reload name msg [] m = (m, false)
stop_named_for_reload name msg ((id, metadata) ∷ cs) m =
    if bytes_eq metadata.module_name name
    then (mark_reload id (emit (sent metadata.mailbox msg) m), true)
    else stop_named_for_reload name msg cs m

-- `__search_module_and_remove` after the allocation of the message, under the flag and without it.
unfoldable pub stop_for_all : Loader → ℕ → ActorManager → ActorManager × Bool
unfolding emit
stop_for_all l msg m =
    let m' = stop_all_for_reload msg m.childrens m in
    if is_empty m'.pending_reload
    then (load_modules l (emit (released msg) m'), true)
    else (m', true)

unfoldable pub stop_for_one : Bytes → ℕ → ActorManager → ActorManager × Bool
unfolding emit
stop_for_one name msg m =
    let (m', found) = stop_named_for_reload name msg m.childrens m in
    if found then (m', true) else (emit (released msg) m', false)

-- `__search_module_and_remove`
unfoldable pub search_module_and_remove : Loader → Bytes → ActorManager → ActorManager × Bool
search_module_and_remove l name m =
    let all = bytes_eq name (codes "all") in
    let m' =
      new_message (if all then max (length m.childrens) 1 else 1) cmd_module_stop none
        (record m { reload_all_flag = all }) in
    if all then stop_for_all l m.next_message m' else stop_for_one name m.next_message m'

-- The loop of `__handle_cmd_exit`.
unfoldable pub stop_each : ℕ → Childrens → ActorManager → ActorManager
unfolding emit
stop_each msg [] m = m
stop_each msg ((id, metadata) ∷ cs) m =
    stop_each msg cs (emit (sent metadata.mailbox msg) (mark_stop id m))

-- `__handle_cmd_exit`
unfoldable pub handle_cmd_exit : ActorManager → ActorManager × Bool
handle_cmd_exit m = if is_empty m.childrens then (m, true) else (
  stop_each m.next_message m.childrens (new_message (length m.childrens) cmd_module_stop none m),
  false,
)

-- `__handle_cmd_reload`, with the text of the message.
unfoldable pub handle_cmd_reload : Environment → Bytes → ActorManager → ActorManager
handle_cmd_reload env name m =
    let (config', updated) = update_config env.host m.config in
    if updated
    then (let (m', found) =
          search_module_and_remove env.loader name (record m { config = config' }) in
        if found then m' else reload_module env.loader 0 name m')
    else m

-- The loop of `__handle_cmd_remove`.
unfoldable pub stop_named : Bytes → Childrens → ActorManager → ActorManager
unfolding emit
stop_named name [] m = m
stop_named name ((id, metadata) ∷ cs) m =
    if bytes_eq metadata.module_name name
    then emit (sent metadata.mailbox m.next_message)
        (mark_stop id (new_message 1 cmd_module_stop none m))
    else stop_named name cs m

-- `__handle_cmd_remove`, with the text of the message.
unfoldable pub handle_cmd_remove : Bytes → ActorManager → ActorManager
unfolding stop_named
handle_cmd_remove name m = stop_named name m.childrens m

-- The end of `__handle_event_exit`: the module is gone.
unfoldable pub unmount : ℕ → ActorManager → ActorManager × Bool
unmount id m =
    let m' = record m { childrens = remove id m.childrens } in
    (m', not m'.is_running && is_empty m'.childrens)

-- `__handle_event_exit` once the child is found, with the three flags. `is_running_` is read once.
unfoldable pub exit_found :
    Loader → ℕ → ActorMetaData → Bool → Bool → Bool → ActorManager → ActorManager × Bool
unfolding unmount
exit_found l id metadata reload_flag stop_flag restart_flag m =
    if m.is_running && reload_flag
    then (if m.reload_all_flag
        then (if is_empty m.pending_reload then (reload_all_modules l m, false) else (m, false))
        else (reload_module l id metadata.module_name m, false))
    else (if m.is_running && (restart_flag && not stop_flag)
        then (restart_module metadata m, false)
        else unmount id m)

-- The three sets lose the identifier.
unfoldable pub unmark : ℕ → ActorManager → ActorManager
unmark id m = record m {
  pending_reload = erase id m.pending_reload;
  pending_stop = erase id m.pending_stop;
  pending_restart = erase id m.pending_restart;
}

-- `__handle_event_exit` for the sender `id`.
unfoldable pub handle_event_exit : Loader → ℕ → ActorManager → ActorManager × Bool
handle_event_exit l id m = elim (find id m.childrens) [
  | none ↦ (unmark id m, false)
  | some metadata ↦
      exit_found l id metadata (contains id m.pending_reload) (contains id m.pending_stop)
        (contains id m.pending_restart) (unmark id m)
]

-- `__handle_event_crash` for the sender `id`.
unfoldable pub handle_event_crash : ℕ → ActorManager → ActorManager
handle_event_crash id m = elim (find id m.childrens) [
  | none ↦ m
  | some metadata ↦
      if m.is_running && (not (contains id m.pending_reload) && not (contains id m.pending_stop))
      then record m { pending_restart = insert id m.pending_restart }
      else m
]
