-- ===== src/Manager/WellFormed/Handlers.antt =====
-- The handlers keep the tables well formed.
use acnet.Prelude.{
  refl, ==-refl, Bool, not, ◌&&◌, inl, inr, none, ℕ, arith, Bytes, bytes_eq, codes, is_empty,
  contains, contains-erase, Bool-cases, Option-cases,
}
use acnet.Plugin.{Loader, update_config}
use acnet.Manager.State.{ActorMetaData, ActorManager, find, new_message}
use acnet.Manager.Tables.{IsWellFormed, contains_of_find, remove-IsTable}
use acnet.Manager.Pending.{mark_restart-IsPending, erase-IsPending, remove-IsPending}
use acnet.Manager.Handlers.{
  Environment, stop_all_for_reload, stop_named_for_reload, stop_for_all, stop_for_one,
  search_module_and_remove, handle_cmd_exit, handle_cmd_reload, handle_cmd_remove, unmount,
  exit_found, unmark, handle_event_exit, handle_event_crash,
}
use acnet.Manager.WellFormed.{
  emit-IsWellFormed, load_modules-IsWellFormed, reload_module-IsWellFormed,
  reload_all_modules-IsWellFormed, restart_module-IsWellFormed,
}
use acnet.Manager.WellFormed.Stopping.{
  tables-IsWellFormed, new_message-IsWellFormed, stop_all_for_reload-IsWellFormed,
  stop_named_for_reload-IsWellFormed, stop_each-IsWellFormed, stop_named-IsWellFormed,
}

stop_for_all-IsWellFormed :
    (l : Loader) (msg : ℕ) (m : ActorManager)
    → IsWellFormed m
    → IsWellFormed (stop_for_all l msg m).0
unfolding stop_for_all
stop_for_all-IsWellFormed l msg m v =
    let w = stop_all_for_reload-IsWellFormed msg m.childrens m (λ i h. h) v in
    elim (Bool-cases (is_empty (stop_all_for_reload msg m.childrens m).pending_reload)) [
      | inl e ↦ rw e (load_modules-IsWellFormed l _ (emit-IsWellFormed _ _ w))
      | inr e ↦ rw e w
    ]

stop_for_one-IsWellFormed :
    (name : Bytes) (msg : ℕ) (m : ActorManager)
    → IsWellFormed m
    → IsWellFormed (stop_for_one name msg m).0
unfolding stop_for_one
stop_for_one-IsWellFormed name msg m v =
    let w = stop_named_for_reload-IsWellFormed name msg m.childrens m (λ i h. h) v in
    elim (Bool-cases (stop_named_for_reload name msg m.childrens m).1) [
      | inl e ↦ rw e w
      | inr e ↦ rw e (emit-IsWellFormed _ _ w)
    ]

search_module_and_remove-IsWellFormed :
    (l : Loader) (name : Bytes) (m : ActorManager)
    → IsWellFormed m
    → IsWellFormed (search_module_and_remove l name m).0
unfolding search_module_and_remove
search_module_and_remove-IsWellFormed l name m v = elim (Bool-cases (bytes_eq name (codes "all"))) [
  | inl e ↦ rw e (
      stop_for_all-IsWellFormed l _ _ (
        new_message-IsWellFormed _ _ _ _ (tables-IsWellFormed m _ refl refl refl refl refl refl v)))
  | inr e ↦ rw e (
      stop_for_one-IsWellFormed name _ _ (
        new_message-IsWellFormed _ _ _ _ (tables-IsWellFormed m _ refl refl refl refl refl refl v)))
]

pub handle_cmd_exit-IsWellFormed :
    (m : ActorManager) → IsWellFormed m → IsWellFormed (handle_cmd_exit m).0
unfolding handle_cmd_exit new_message
handle_cmd_exit-IsWellFormed m v = elim (Bool-cases (is_empty m.childrens)) [
  | inl e ↦ rw e v
  | inr e ↦
      rw e
        (stop_each-IsWellFormed _ m.childrens _ (λ i h. h) (new_message-IsWellFormed _ _ none m v))
]

pub handle_cmd_reload-IsWellFormed :
    (env : Environment) (name : Bytes) (m : ActorManager)
    → IsWellFormed m
    → IsWellFormed (handle_cmd_reload env name m)
unfolding handle_cmd_reload
handle_cmd_reload-IsWellFormed env name m v =
    let n : ActorManager = record m { config = (update_config env.host m.config).0 } in
    let w =
      search_module_and_remove-IsWellFormed env.loader name n
        (tables-IsWellFormed m n refl refl refl refl refl refl v) in
    elim (Bool-cases (update_config env.host m.config).1) [
      | inl e ↦ elim (Bool-cases (search_module_and_remove env.loader name n).1) [
        | inl f ↦ rw (e, f) w
        | inr f ↦ rw (e, f) (reload_module-IsWellFormed env.loader 0 name _ w)
      ]
      | inr e ↦ rw e v
    ]

unmark-IsWellFormed : (i : ℕ) (m : ActorManager) → IsWellFormed m → IsWellFormed (unmark i m)
unfolding unmark
unmark-IsWellFormed i m v = record {
  positive = v.positive;
  table = v.table;
  pending = erase-IsPending v.pending i;
}

-- A child without marks can leave.
unmount-IsWellFormed :
    (i : ℕ) (m : ActorManager) → IsWellFormed m → IsWellFormed (unmount i (unmark i m)).0
unfolding unmount unmark
unmount-IsWellFormed i m v = record {
  positive = v.positive;
  table = remove-IsTable m.next_id m.next_mailbox i m.childrens v.table;
  pending =
      remove-IsPending (erase-IsPending v.pending i) m.next_id m.next_mailbox i v.table
        (ground (arith, contains-erase i i m.pending_reload, ==-refl i))
        (ground (arith, contains-erase i i m.pending_stop, ==-refl i))
        (ground (arith, contains-erase i i m.pending_restart, ==-refl i));
}

exit_found-IsWellFormed :
    (l : Loader) (i : ℕ) (d : ActorMetaData) (r s t : Bool) (m : ActorManager)
    → IsWellFormed m
    → IsWellFormed (exit_found l i d r s t (unmark i m)).0
unfolding exit_found
exit_found-IsWellFormed l i d r s t m v =
    let n = unmark i m in
    let w = unmark-IsWellFormed i m v in
    elim (Bool-cases (n.is_running && r)) [
      | inl a ↦ elim (Bool-cases n.reload_all_flag) [
        | inl b ↦ elim (Bool-cases (is_empty n.pending_reload)) [
          | inl c ↦ simp (a, b, c) (reload_all_modules-IsWellFormed l n w)
          | inr c ↦ simp (a, b, c) w
        ]
        | inr b ↦ simp (a, b) (reload_module-IsWellFormed l i d.module_name n w)
      ]
      | inr a ↦ elim (Bool-cases (n.is_running && (t && not s))) [
        | inl b ↦ simp (a, b) (restart_module-IsWellFormed d n w)
        | inr b ↦ simp (a, b) (unmount-IsWellFormed i m v)
      ]
    ]

pub handle_event_exit-IsWellFormed :
    (l : Loader) (i : ℕ) (m : ActorManager)
    → IsWellFormed m
    → IsWellFormed (handle_event_exit l i m).0
unfolding handle_event_exit
handle_event_exit-IsWellFormed l i m v = elim (Option-cases (find i m.childrens)) [
  | inl e ↦ rw (e, handle_event_exit) (unmark-IsWellFormed i m v)
  | inr (d, e) ↦ rw (e, handle_event_exit) (exit_found-IsWellFormed l i d _ _ _ m v)
]

pub handle_event_crash-IsWellFormed :
    (i : ℕ) (m : ActorManager) → IsWellFormed m → IsWellFormed (handle_event_crash i m)
unfolding handle_event_crash
handle_event_crash-IsWellFormed i m v = elim (Option-cases (find i m.childrens)) [
  | inl e ↦ rw (e, handle_event_crash) v
  | inr (d, e) ↦
      elim (Bool-cases
        (m.is_running && (not (contains i m.pending_reload) && not (contains i m.pending_stop)))) [
          | inl b ↦
              rw (e, handle_event_crash, b)
                (record {
                  positive = v.positive;
                  table = v.table;
                  pending =
                      mark_restart-IsPending v.pending i (contains_of_find i m.childrens e)
                        (ground arith) (ground arith);
                })
          | inr b ↦ rw (e, handle_event_crash, b) v
        ]
]

pub handle_cmd_remove-IsWellFormed :
    (name : Bytes) (m : ActorManager) → IsWellFormed m → IsWellFormed (handle_cmd_remove name m)
unfolding handle_cmd_remove
handle_cmd_remove-IsWellFormed name m v = stop_named-IsWellFormed name m.childrens m (λ i h. h) v
