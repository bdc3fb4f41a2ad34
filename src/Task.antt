-- ===== src/Task.antt =====
-- include/task.h, `Task` and `TaskPromise`: the promise of a coroutine that another one awaits, and the
-- steps of its awaiter and of its end. A coroutine handle and an exception pointer are numbers. `T` is
-- the type of the result. `Task<void>`, whose `result_` has no alternative for a value, is the task of
-- `Unit` with functions of its own. Task/Awaiting has the caller and the callee on two threads.
pub mod Answers
pub mod Awaiting
pub mod Frames
use acnet.Prelude.{ℕ, Bool, true, false, Option, none, some}

-- `std::variant<std::monostate, T, std::exception_ptr>`
pub data Result {ℓ} (T : Type ℓ) : Type ℓ where
  monostate : Result T
  value : T → Result T
  exception_ptr : ℕ → Result T

pub record TaskPromise {ℓ} (T : Type ℓ) : Type ℓ where
  pub continuation : Option ℕ
  pub result : Result T

-- The coroutine's frame: its promise, and what `done` says of its handle.
pub record Frame {ℓ} (T : Type ℓ) : Type ℓ where
  pub promise : TaskPromise T
  pub is_done : Bool

-- How the body ends. A body of `Task<void>` returns the one value of `Unit`.
pub data Outcome {ℓ} (T : Type ℓ) : Type ℓ where
  returns : T → Outcome T
  throws : ℕ → Outcome T

-- What `await_resume` gives its caller. `bad_variant_access` is the exception of `std::get`.
pub data Answer {ℓ} (T : Type ℓ) : Type ℓ where
  returned : T → Answer T
  rethrown : ℕ → Answer T
  bad_variant_access : Answer T

module _ {ℓ} {T : Type ℓ} where
  -- A coroutine starts at once: `initial_suspend` does not suspend.
  unfoldable pub get_return_object : Frame T
  get_return_object = record {
    promise = record { continuation = none; result = monostate };
    is_done = false;
  }

  unfoldable pub return_value : T → TaskPromise T → TaskPromise T
  return_value v p = record p { result = value v }

  unfoldable pub unhandled_exception : ℕ → TaskPromise T → TaskPromise T
  unhandled_exception e p = record p { result = exception_ptr e }

  -- `FinalAwaiter::await_suspend`: the coroutine to go on with, or none.
  unfoldable pub final_transfer : TaskPromise T → Option ℕ
  final_transfer p = p.continuation

  unfoldable pub conclude : Outcome T → TaskPromise T → TaskPromise T
  unfolding return_value unhandled_exception
  conclude (returns v) p = return_value v p
  conclude (throws e) p = unhandled_exception e p

  -- The final suspension, and the coroutine to go on with.
  unfoldable pub suspend_finally : TaskPromise T → Frame T × Option ℕ
  unfolding final_transfer
  suspend_finally p = (record { promise = p; is_done = true }, final_transfer p)

  -- The end of the body.
  unfoldable pub finish : Outcome T → Frame T → Frame T × Option ℕ
  unfolding conclude suspend_finally
  finish outcome f = suspend_finally (conclude outcome f.promise)

  -- `none` is a task without a coroutine.
  unfoldable pub await_ready : Option (Frame T) → Bool
  await_ready none = true
  await_ready (some f) = f.is_done

  unfoldable pub await_suspend : ℕ → Frame T → Frame T
  await_suspend caller f = record f { promise = record f.promise { continuation = some caller } }

  unfoldable pub await_resume : Frame T → Answer T
  await_resume f = elim f.promise.result [
    | monostate ↦ bad_variant_access
    | value v ↦ returned v
    | exception_ptr e ↦ rethrown e
  ]

-- `TaskPromise<void>` and `Task<void>`
unfoldable pub conclude_void : Outcome (Unit {0}) → TaskPromise (Unit {0}) → TaskPromise (Unit {0})
unfolding unhandled_exception
conclude_void (returns u) p = p
conclude_void (throws e) p = unhandled_exception e p

unfoldable pub finish_void : Outcome (Unit {0}) → Frame (Unit {0}) → Frame (Unit {0}) × Option ℕ
unfolding conclude_void suspend_finally
finish_void outcome f = suspend_finally (conclude_void outcome f.promise)

unfoldable pub await_resume_void : Frame (Unit {0}) → Answer (Unit {0})
await_resume_void f = elim f.promise.result [
  | monostate ↦ returned tt
  | value v ↦ returned tt
  | exception_ptr e ↦ rethrown e
]
