-- ===== src/Manager/Loading.antt =====
-- How the manager brings modules up: `__generate_creator`, `__load_modules`, `__reload_module`,
-- `__reload_all_modules` and `__restart_module`.
use acnet.Prelude.{
  ℕ, suc, ◌==◌, if◌then◌else◌, Option, none, some, List, [], ◌∷◌, ◌++◌, Bytes, codes, bytes_eq,
  is_empty,
}
use acnet.Plugin.{AcModule, AcConfig, Loader, LoadedModule, loaded_module, open_module}
use acnet.Manager.State.{
  ActorMetaData, Launch, enqueued, enqueued_batch, ActorManager, find, find_name, set_creator, emit,
}

-- `std::format("{}/lib{}.so", config->library_path, mod.library_name)`
unfoldable pub library_file : AcConfig → AcModule → Bytes
library_file c mod' = c.library_path ++ (codes "/lib" ++ (mod'.library_name ++ codes ".so"))

-- `__generate_creator`: `none` for the empty function.
unfoldable pub generate_creator : Loader → Bytes → Option LoadedModule
generate_creator l path =
    let (lib, done, calls) = open_module l (loaded_module path) in if done then some lib else none

-- `metadata.creator(metadata.actor_id, metadata.mailbox)`
unfoldable pub launch : LoadedModule → ℕ → ℕ → Launch
launch lib id mailbox = record { library = lib; actor_id = id; mailbox = mailbox }

-- The `ActorMetaData` of a new child, with `generate_unique_id()` and `make_shared<MailBox>()`.
unfoldable pub new_metadata : Bytes → LoadedModule → ActorManager → ActorMetaData
new_metadata name lib m = record {
  actor_id = m.next_id;
  mailbox = m.next_mailbox;
  module_name = name;
  creator = some lib;
}

-- A new child is emplaced; the coroutine that its creator makes is returned.
unfoldable pub add_child : Bytes → LoadedModule → ActorManager → ActorManager × Launch
unfolding launch new_metadata
add_child name lib m = (
  record m {
    childrens = (m.next_id, new_metadata name lib m) ∷ m.childrens;
    next_id = suc m.next_id;
    next_mailbox = suc m.next_mailbox;
  },
  launch lib m.next_id m.next_mailbox,
)

-- The loop of `__load_modules` over the modules of the configuration `c`.
unfoldable pub load_each :
    Loader → AcConfig → List AcModule → ActorManager → List Launch → ActorManager × List Launch
load_each l c [] m tasks = (m, tasks)
load_each l c (mod' ∷ mods) m tasks = elim (generate_creator l (library_file c mod')) [
  | none ↦ load_each l c mods m tasks
  | some lib ↦
      let (m', task) = add_child mod'.module_name lib m in
      load_each l c mods m' (tasks ++ task ∷ [])
]

-- `__load_modules`
unfoldable pub load_modules : Loader → ActorManager → ActorManager
unfolding emit
load_modules l m =
    if is_empty m.config.modules
    then m
    else (let (m', tasks) = load_each l m.config m.config.modules m [] in
        emit (enqueued_batch tasks) m')

-- The child `id` gets the new creator and is launched again, with the identifier and the mailbox
-- of its entry.
unfoldable pub relaunch : ℕ → ActorMetaData → LoadedModule → ActorManager → ActorManager × Launch
unfolding launch
relaunch id metadata lib m = (
  record m { childrens = set_creator id lib m.childrens },
  launch lib metadata.actor_id metadata.mailbox,
)

-- The body of the loop of `__reload_module` for the module that has the name.
unfoldable pub reload_found : Loader → AcModule → ℕ → ActorManager → ActorManager
unfolding emit relaunch
reload_found l mod' id m = elim (generate_creator l (library_file m.config mod')) [
  | none ↦ m
  | some lib ↦
      if id == 0
      then (let (m', task) = add_child mod'.module_name lib m in emit (enqueued task) m')
      else elim (find id m.childrens) [
        | none ↦ m
        | some metadata ↦ let (m', task) = relaunch id metadata lib m in emit (enqueued task) m'
      ]
]

-- `__reload_module`: the loop stops at the first module of that name.
unfoldable pub reload_search : Loader → List AcModule → ℕ → Bytes → ActorManager → ActorManager
reload_search l [] id name m = m
reload_search l (mod' ∷ mods) id name m =
    if bytes_eq name mod'.module_name
    then reload_found l mod' id m
    else reload_search l mods id name m

unfoldable pub reload_module : Loader → ℕ → Bytes → ActorManager → ActorManager
unfolding reload_search
reload_module l id name m = reload_search l m.config.modules id name m

-- One round of the loop of `__reload_all_modules`, with the creator of the module.
unfoldable pub reload_one : AcModule → LoadedModule → ActorManager → ActorManager × Launch
unfolding relaunch
reload_one mod' lib m = elim (find_name mod'.module_name m.childrens) [
  | some (id, metadata) ↦ relaunch id metadata lib m
  | none ↦ add_child mod'.module_name lib m
]

unfoldable pub reload_each :
    Loader → AcConfig → List AcModule → ActorManager → List Launch → ActorManager × List Launch
reload_each l c [] m tasks = (m, tasks)
reload_each l c (mod' ∷ mods) m tasks = elim (generate_creator l (library_file c mod')) [
  | none ↦ reload_each l c mods m tasks
  | some lib ↦
      let (m', task) = reload_one mod' lib m in reload_each l c mods m' (tasks ++ task ∷ [])
]

-- `__reload_all_modules`
unfoldable pub reload_all_modules : Loader → ActorManager → ActorManager
unfolding emit
reload_all_modules l m =
    if is_empty m.config.modules
    then m
    else (let (m', tasks) = reload_each l m.config m.config.modules m [] in
        emit (enqueued_batch tasks) m')

-- `__restart_module`
unfoldable pub restart_module : ActorMetaData → ActorManager → ActorManager
unfolding emit launch
restart_module metadata m = elim metadata.creator [
  | none ↦ m
  | some lib ↦ emit (enqueued (launch lib metadata.actor_id metadata.mailbox)) m
]
