-- ===== src/Manager/WellFormed.antt =====
-- Every operation of the manager keeps `IsWellFormed`: first those of Loading.antt.
pub mod Stopping
pub mod Handlers
pub mod Handling
use acnet.Prelude.{
  ◌≡◌, refl, ◌==◌, Bool, true, false, inl, inr, none, some, List, [], ◌∷◌, ◌++◌, ℕ, arith, Bytes,
  bytes_eq, is_empty, Bool-cases, Option-cases,
}
use acnet.Plugin.{AcModule, AcConfig, Loader, LoadedModule}
use acnet.Manager.State.{
  ActorMetaData, Launch, Effect, enqueued, enqueued_batch, ActorManager, find, find_name, emit,
}
use acnet.Manager.Tables.{IsWellFormed, add-IsTable, set_creator-IsTable}
use acnet.Manager.Pending.{add-IsPending, set_creator-IsPending}
use acnet.Manager.Loading.{
  library_file, generate_creator, new_metadata, add_child, load_each, load_modules, relaunch,
  reload_found, reload_search, reload_module, reload_one, reload_each, reload_all_modules,
  restart_module,
}

pub emit-IsWellFormed : (e : Effect) (m : ActorManager) → IsWellFormed m → IsWellFormed (emit e m)
unfolding emit
emit-IsWellFormed e m v = record { positive = v.positive; table = v.table; pending = v.pending }

pub add_child-IsWellFormed :
    (name : Bytes) (lib : LoadedModule) (m : ActorManager)
    → IsWellFormed m
    → IsWellFormed (add_child name lib m).0
unfolding add_child
add_child-IsWellFormed name lib m v = record {
  positive = omega arith;
  table =
      add-IsTable m.next_id m.next_mailbox m.childrens (new_metadata name lib m) v.positive refl
        refl v.table;
  pending = add-IsPending v.pending m.next_id (new_metadata name lib m);
}

relaunch-IsWellFormed :
    (i : ℕ) (d : ActorMetaData) (lib : LoadedModule) (m : ActorManager)
    → IsWellFormed m
    → IsWellFormed (relaunch i d lib m).0
unfolding relaunch
relaunch-IsWellFormed i d lib m v = record {
  positive = v.positive;
  table = set_creator-IsTable m.next_id m.next_mailbox i lib m.childrens v.table;
  pending = set_creator-IsPending v.pending i lib;
}

load_each-IsWellFormed :
    (l : Loader) (c : AcConfig) (mods : List AcModule) (m : ActorManager) (tasks : List Launch)
    → IsWellFormed m
    → IsWellFormed (load_each l c mods m tasks).0
unfolding load_each
load_each-IsWellFormed l c [] m tasks v = v
load_each-IsWellFormed l c (md ∷ mods) m tasks v =
    elim (Option-cases (generate_creator l (library_file c md))) [
      | inl e ↦ rw (e, load_each) (load_each-IsWellFormed l c mods m tasks v)
      | inr (lib, e) ↦
          rw (e, load_each)
            (load_each-IsWellFormed l c mods _ _ (add_child-IsWellFormed md.module_name lib m v))
    ]

pub load_modules-IsWellFormed :
    (l : Loader) (m : ActorManager) → IsWellFormed m → IsWellFormed (load_modules l m)
unfolding load_modules
load_modules-IsWellFormed l m v = elim (Bool-cases (is_empty m.config.modules)) [
  | inl e ↦ rw e v
  | inr e ↦ rw e (emit-IsWellFormed _ _ (load_each-IsWellFormed l m.config m.config.modules m [] v))
]

reload_found-IsWellFormed :
    (l : Loader) (md : AcModule) (i : ℕ) (m : ActorManager)
    → IsWellFormed m
    → IsWellFormed (reload_found l md i m)
unfolding reload_found
reload_found-IsWellFormed l md i m v =
    elim (Option-cases (generate_creator l (library_file m.config md))) [
      | inl e ↦ rw (e, reload_found) v
      | inr (lib, e) ↦ elim (Bool-cases (i == 0)) [
        | inl z ↦
            rw (e, reload_found, z)
              (emit-IsWellFormed _ _ (add_child-IsWellFormed md.module_name lib m v))
        | inr z ↦ elim (Option-cases (find i m.childrens)) [
          | inl n ↦ rw (e, reload_found, z, n) v
          | inr (d, s) ↦
              rw (e, reload_found, z, s) (emit-IsWellFormed _ _ (relaunch-IsWellFormed i d lib m v))
        ]
      ]
    ]

reload_search-IsWellFormed :
    (l : Loader) (mods : List AcModule) (i : ℕ) (name : Bytes) (m : ActorManager)
    → IsWellFormed m
    → IsWellFormed (reload_search l mods i name m)
unfolding reload_search
reload_search-IsWellFormed l [] i name m v = v
reload_search-IsWellFormed l (md ∷ mods) i name m v =
    elim (Bool-cases (bytes_eq name md.module_name)) [
      | inl e ↦ rw e (reload_found-IsWellFormed l md i m v)
      | inr e ↦ rw e (reload_search-IsWellFormed l mods i name m v)
    ]

pub reload_module-IsWellFormed :
    (l : Loader) (i : ℕ) (name : Bytes) (m : ActorManager)
    → IsWellFormed m
    → IsWellFormed (reload_module l i name m)
unfolding reload_module
reload_module-IsWellFormed l i name m v = reload_search-IsWellFormed l m.config.modules i name m v

reload_one-IsWellFormed :
    (md : AcModule) (lib : LoadedModule) (m : ActorManager)
    → IsWellFormed m
    → IsWellFormed (reload_one md lib m).0
unfolding reload_one
reload_one-IsWellFormed md lib m v = elim (Option-cases (find_name md.module_name m.childrens)) [
  | inl e ↦ rw (e, reload_one) (add_child-IsWellFormed md.module_name lib m v)
  | inr ((i, d), e) ↦ rw (e, reload_one) (relaunch-IsWellFormed i d lib m v)
]

reload_each-IsWellFormed :
    (l : Loader) (c : AcConfig) (mods : List AcModule) (m : ActorManager) (tasks : List Launch)
    → IsWellFormed m
    → IsWellFormed (reload_each l c mods m tasks).0
unfolding reload_each
reload_each-IsWellFormed l c [] m tasks v = v
reload_each-IsWellFormed l c (md ∷ mods) m tasks v =
    elim (Option-cases (generate_creator l (library_file c md))) [
      | inl e ↦ rw (e, reload_each) (reload_each-IsWellFormed l c mods m tasks v)
      | inr (lib, e) ↦
          rw (e, reload_each)
            (reload_each-IsWellFormed l c mods _ _ (reload_one-IsWellFormed md lib m v))
    ]

pub reload_all_modules-IsWellFormed :
    (l : Loader) (m : ActorManager) → IsWellFormed m → IsWellFormed (reload_all_modules l m)
unfolding reload_all_modules
reload_all_modules-IsWellFormed l m v = elim (Bool-cases (is_empty m.config.modules)) [
  | inl e ↦ rw e v
  | inr e ↦
      rw e (emit-IsWellFormed _ _ (reload_each-IsWellFormed l m.config m.config.modules m [] v))
]

pub restart_module-IsWellFormed :
    (d : ActorMetaData) (m : ActorManager) → IsWellFormed m → IsWellFormed (restart_module d m)
unfolding restart_module
restart_module-IsWellFormed d m v = elim (Option-cases d.creator) [
  | inl e ↦ rw (e, restart_module) v
  | inr (lib, e) ↦ rw (e, restart_module) (emit-IsWellFormed _ _ v)
]
