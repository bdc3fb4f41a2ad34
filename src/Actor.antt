-- ===== src/Actor.antt =====
-- A module's coroutine: src/core/actor_module.cc, `RunCoroutine`, and src/core/actor_manager.cc,
-- `__launch_actor`. The module's own code is reached through pointers, and `std::format` is an
-- argument. `RunCoroutine` throws before its receive loop, so the loop is never entered and is not
-- part of the model; the pause before that is left out.
pub mod CrashLoop
use acnet.Prelude.{
  ℕ, ◌==◌, ◌||◌, ◌++◌, if◌then◌else◌, Option, none, some, List, [], ◌∷◌, Bytes, codes,
}
use acnet.Message.{EventMessage, module_exited, crash_report, none_event, event_type_to_string}
use acnet.Plugin.{LoadedModule}

-- `enum class ActorExitState`
pub data ActorExitState : Type 0 where
  exit_success : ActorExitState
  exit_failure : ActorExitState

-- What `create_func(actor_id, mailbox_)` returns (0 for null), and the text of a crash report from
-- the identifier, the event type's name and the exception's `what()`.
pub record Runtime : Type 0 where
  pub create : (create_func actor_id : ℕ) → ℕ
  pub format : ℕ → Bytes → Bytes → Bytes

-- What the coroutine does, in order: calls of the module and messages to the manager's mailbox.
pub data ActorEffect : Type 0 where
  initialized : ℕ → ActorEffect
  marked_running : ActorEffect
  reported : EventMessage → ActorEffect
  handled_error : ℕ → ActorEffect
  uninitialized : ℕ → ActorEffect
  destroyed : (destroy_func actor : ℕ) → ActorEffect

-- `RunCoroutine`. No message has been received when it throws.
unfoldable pub run_coroutine : Runtime → ℕ → ℕ → List ActorEffect × ActorExitState
run_coroutine rt actor id =
    let text = rt.format id (event_type_to_string none_event) (codes "boom!boom!boom!") in
    let crash : EventMessage = record {
      ref = 1;
      type = crash_report;
      sender_id = id;
      payload = some text;
    } in
    (marked_running ∷ reported crash ∷ handled_error actor ∷ [], exit_failure)

-- `__launch_actor`
unfoldable pub launch_actor : Runtime → LoadedModule → ℕ → List ActorEffect
unfolding run_coroutine
launch_actor rt lib id =
    let left : EventMessage = record {
      ref = 1;
      type = module_exited;
      sender_id = id;
      payload = none;
    } in
    let actor = rt.create lib.create_func id in
    if lib.create_func == 0 || lib.destroy_func == 0
    then reported left ∷ []
    else (if actor == 0
        then reported left ∷ []
        else initialized actor ∷ (run_coroutine rt actor id).0
          ++ uninitialized actor ∷ destroyed lib.destroy_func actor ∷ reported left ∷ [])

-- The messages that reach the manager, in order.
unfoldable pub messages : List ActorEffect → List EventMessage
messages [] = []
messages (reported msg ∷ es) = msg ∷ messages es
messages (initialized a ∷ es) = messages es
messages (marked_running ∷ es) = messages es
messages (handled_error a ∷ es) = messages es
messages (uninitialized a ∷ es) = messages es
messages (destroyed f a ∷ es) = messages es
