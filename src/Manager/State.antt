-- ===== src/Manager/State.antt =====
-- The state of `ActorManager`, its tables, and the effects that it has on the rest of the program.
-- `childrens_` is an association list in the order in which the program iterates it, and a new
-- entry stands first. The `std::latch` is its counter. What the manager does outside itself is
-- recorded in `log`, newest first.
use acnet.Prelude.{
  ℕ, suc, ◌==◌, if◌then◌else◌, Bool, Option, none, some, List, [], ◌∷◌, Bytes, insert, erase,
  bytes_eq,
}
use acnet.Message.{EventType, EventMessage}
use acnet.Plugin.{AcConfig, LoadedModule}

-- `struct ActorMetaData`: the mailbox is named by a number, and the creator is the library that
-- the closure holds (`none` for an empty `std::function`).
pub record ActorMetaData : Type 0 where
  pub actor_id : ℕ
  pub mailbox : ℕ
  pub module_name : Bytes
  pub creator : Option LoadedModule

-- A coroutine that a creator has made and that has not started: the arguments of `__launch_actor`.
pub record Launch : Type 0 where
  pub library : LoadedModule
  pub actor_id : ℕ
  pub mailbox : ℕ

-- `new EventMessage(…)`, `MailBox::Send`, `event_message_release`, `ActorScheduler::Enqueue` and
-- `ActorScheduler::EnqueueBatch`; `looped` is `ArmConsumer` and `Enqueue` for the coroutine of the
-- event loop, and `consumed` is the `event_message_release` that the event loop makes of a message
-- which it has received. Messages are named by numbers.
pub data Effect : Type 0 where
  allocated : ℕ → EventMessage → Effect
  sent : (mailbox message : ℕ) → Effect
  released : ℕ → Effect
  consumed : ℕ → Effect
  enqueued : Launch → Effect
  enqueued_batch : List Launch → Effect
  looped : Effect

abbrev pub Childrens : Type 0
Childrens = List (ℕ × ActorMetaData)

-- `class ActorManager`, with the configuration of `PluginManager`, the counter of
-- `generate_unique_id` and the next free numbers for mailboxes and messages.
pub record ActorManager : Type 0 where
  pub is_running : Bool
  pub reload_all_flag : Bool
  pub main_latch : ℕ
  pub childrens : Childrens
  pub pending_reload : List ℕ
  pub pending_stop : List ℕ
  pub pending_restart : List ℕ
  pub config : AcConfig
  pub next_id : ℕ
  pub next_mailbox : ℕ
  pub next_message : ℕ
  pub log : List Effect

-- `childrens_.find(id)`
unfoldable pub find : ℕ → Childrens → Option ActorMetaData
find id [] = none
find id ((key, data') ∷ cs) = if id == key then some data' else find id cs

-- `childrens_.erase(it)` for the entry of `id`.
unfoldable pub remove : ℕ → Childrens → Childrens
remove id [] = []
remove id ((key, data') ∷ cs) = if id == key then cs else (key, data') ∷ remove id cs

-- The first entry whose `module_name` is the given one.
unfoldable pub find_name : Bytes → Childrens → Option (ℕ × ActorMetaData)
find_name name [] = none
find_name name ((key, data') ∷ cs) =
    if bytes_eq data'.module_name name then some (key, data') else find_name name cs

-- `it->second.creator = std::move(creator_func)` for the entry of `id`.
unfoldable pub set_creator : ℕ → LoadedModule → Childrens → Childrens
set_creator id lib [] = []
set_creator id lib ((key, data') ∷ cs) =
    if id == key
    then (key, record data' { creator = some lib }) ∷ cs
    else (key, data') ∷ set_creator id lib cs

-- The mailbox of the manager itself, `mailbox_`.
abbrev pub own_mailbox : ℕ
own_mailbox = 0

unfoldable pub emit : Effect → ActorManager → ActorManager
emit e m = record m { log = e ∷ m.log }

-- `new EventMessage(ref, type, 0)`, with the payload that `set` gives it; its number is the old
-- `next_message`.
unfoldable pub new_message : ℕ → EventType → Option Bytes → ActorManager → ActorManager
unfolding emit
new_message ref type text m =
    let msg : EventMessage = record { ref = ref; type = type; sender_id = 0; payload = text } in
    emit (allocated m.next_message msg) (record m { next_message = suc m.next_message })

-- `pending_reload_.insert(id); pending_restart_.erase(id);`
unfoldable pub mark_reload : ℕ → ActorManager → ActorManager
mark_reload id m = record m {
  pending_reload = insert id m.pending_reload;
  pending_restart = erase id m.pending_restart;
}

-- `pending_stop_.insert(id); pending_restart_.erase(id);`
unfoldable pub mark_stop : ℕ → ActorManager → ActorManager
mark_stop id m = record m {
  pending_stop = insert id m.pending_stop;
  pending_restart = erase id m.pending_restart;
}
