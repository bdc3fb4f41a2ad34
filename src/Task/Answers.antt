-- ===== src/Task/Answers.antt =====
-- What a coroutine gets from a task that it awaits.
use acnet.Prelude.{ℕ, ◌≡◌, refl, true, false, Option, none, some}
use acnet.Task.{
  Frame, Outcome, returns, throws, Answer, returned, rethrown, get_return_object, finish,
  finish_void, conclude, conclude_void, suspend_finally, return_value, unhandled_exception,
  final_transfer, await_ready, await_suspend, await_resume, await_resume_void,
}

-- The answer that a body's end asks for.
abbrev pub answer {ℓ} : {T : Type ℓ} → Outcome T → Answer T
answer (returns v) = returned v
answer (throws e) = rethrown e

-- A coroutine awaits a task by an end of its body, `final`, and a way to get the answer. `final` comes
-- before `await_ready` or behind `await_suspend`.
abbrev pub IsAwaited {ℓ} :
    {T : Type ℓ} → (Frame T → Frame T × Option ℕ) → (Frame T → Answer T) → Answer T → ℕ → Type ℓ
IsAwaited {T} final resume expected caller =
    let (early, no_one) = final get_return_object in
    let (late, someone) = final (await_suspend caller get_return_object) in
    (await_ready (some early) ≡ true)
    × (no_one ≡ none)
    × (resume early ≡ expected)
    × (await_ready {T = T} (some get_return_object) ≡ false)
    × (someone ≡ some caller)
    × (resume late ≡ expected)

-- A coroutine awaits a task. If the body of the task has ended, the caller need not be suspended, and
-- nothing is resumed at that end; if it ends after the caller has been suspended, exactly the caller
-- is resumed. In both cases the caller then gets the value that the body has returned, or its
-- exception.
pub finish-IsAwaited {ℓ} :
    {T : Type ℓ} (outcome : Outcome T) (caller : ℕ)
    → IsAwaited (finish outcome) await_resume (answer outcome) caller
unfolding finish conclude suspend_finally return_value unhandled_exception final_transfer
    await_ready await_suspend await_resume get_return_object
finish-IsAwaited (returns v) caller = (refl, refl, refl, refl, refl, refl)
finish-IsAwaited (throws e) caller = (refl, refl, refl, refl, refl, refl)

-- The same of a task without a value: the caller goes on, or gets the exception.
pub finish_void-IsAwaited :
    (outcome : Outcome (Unit {0})) (caller : ℕ)
    → IsAwaited (finish_void outcome) await_resume_void (answer outcome) caller
unfolding finish_void conclude_void suspend_finally unhandled_exception final_transfer await_ready
    await_suspend await_resume_void get_return_object
finish_void-IsAwaited (returns u) caller = (refl, refl, refl, refl, refl, refl)
finish_void-IsAwaited (throws e) caller = (refl, refl, refl, refl, refl, refl)
