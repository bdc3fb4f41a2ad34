-- ===== src/GlobalQueue/Joining.antt =====
-- src/core/actor_scheduler.cc, the destructor: after `Shutdown` every worker leaves its loop, so that
-- `pthread_join` returns for each.
use acnet.Prelude.{
  ℕ, ◌+◌, ◌^◌, ◌≤◌, ◌<◌, ◌≡◌, ◌≢◌, refl, true, false, arith, word, is_empty, Bool-cases, inl, inr,
  ap, sym, ◌∙◌, update_at, false≢true, ◌==◌, ==-to_eq, if◌then◌else◌, Option, none, some,
}
use acnet.GlobalQueue.{
  push, push_batch, try_pop, notify_one_idle, prepare_park, cancel_park, may_leave, leave_park,
  raise_if,
}
use acnet.GlobalQueue.Workers.{
  Worker, working, searching, resuming, prepared, cancelling, parking, waiting, woken, gone,
  is_waiting, State, Step, pushes, pushes_batch, notifies, signal, signal_none, spurious, halt,
  stops, signals_all, searches, takes, takes_elsewhere, returns, prepares, takes_again,
  finds_elsewhere, cancels, finds_none, waits, waits_again, leaves, leaves_woken, quits, Reach,
}
use acnet.GlobalQueue.Keeping.{try_pop_lem, push_batch_lem}
use acnet.GlobalQueue.Parking.{stopped-wakes_all}

-- At most so many steps are left to a worker, once the scheduler has stopped.
abbrev pub rank : Worker → ℕ
rank working = 1
rank searching = 5
rank resuming = 2
rank (prepared e) = 4
rank cancelling = 3
rank (parking e) = 2
rank (waiting e) = 3
rank (woken e) = 2
rank gone = 0

-- `Shutdown` has returned.
abbrev pub IsStopped : State → Type 0
IsStopped s = (s.halted ≡ true) × (s.g.stop_flag ≡ true) × (s.signal_all ≡ false)

module _ (n : ℕ) where
  -- The worker that makes the step itself.
  abbrev pub mover : {s t : State} → Step n s t → Option ℕ
  mover (pushes task) = none
  mover (pushes_batch tasks) = none
  mover notifies = none
  mover (signal i l h k) = none
  mover (signal_none w k) = none
  mover (spurious i l h) = none
  mover halt = none
  mover (stops h f) = none
  mover (signals_all h) = none
  mover (searches i l h r) = some i
  mover (takes i l h) = some i
  mover (takes_elsewhere i l h) = some i
  mover (returns i l h) = some i
  mover (prepares i l h) = some i
  mover (takes_again i l h q) = some i
  mover (finds_elsewhere i l h) = some i
  mover (cancels i l h) = some i
  mover (finds_none i l h q) = some i
  mover (waits i l h m) = some i
  mover (waits_again i l h m) = some i
  mover (leaves i l h m) = some i
  mover (leaves_woken i l h m) = some i
  mover (quits i l h k) = some i

  -- 1 for a step that the worker `i` makes itself.
  abbrev pub own : ℕ → Option ℕ → ℕ
  own i none = 0
  own i (some j) = if i == j then 1 else 0

  -- A run, with the number of its steps that the worker `i` makes itself.
  pub data Run (i : ℕ) (s : State) : State → ℕ → Type 0 where
    done : Run i s s 0
    more :
        {t u : State} {k : ℕ} → Run i s t k → (st : Step n t u) → Run i s u (own i (mover st) + k)

  abbrev Lowers : ℕ → State → State → ℕ → Type 0
  Lowers i s t k = IsStopped t × (k + rank (t.workers i) ≤ rank (s.workers i))

  -- The worker `j` moves by itself, or is woken.
  moved :
      (i : ℕ) (f : ℕ → Worker) (j : ℕ) {a : Worker} (b : Worker)
      → f j ≡ a
      → 1 + rank b ≤ rank a
      → own i (some j) + rank (update_at f j b i) ≤ rank (f i)
  moved i f j b h r = elim (Bool-cases (i == j)) [
    | inl e ↦
        let q : f i ≡ f j = ap f (==-to_eq i j e) in
        ground (arith, ap rank h, ap rank q, ==-to_eq i j e)
    | inr e ↦ ground (arith, e)
  ]

  is_woken :
      (i : ℕ) (f : ℕ → Worker) (j : ℕ) {a : Worker} (b : Worker)
      → f j ≡ a
      → rank b ≤ rank a
      → 0 + rank (update_at f j b i) ≤ rank (f i)
  is_woken i f j b h r = elim (Bool-cases (i == j)) [
    | inl e ↦
        let q : f i ≡ f j = ap f (==-to_eq i j e) in
        ground (arith, ap rank h, ap rank q, ==-to_eq i j e)
    | inr e ↦ ground (arith, e)
  ]

  leaves_anyway : (s : State) (e : ℕ) → IsStopped s → may_leave e s.g ≡ true
  unfolding may_leave
  leaves_anyway s e v = ground (arith, v.1)

  -- After `Shutdown` a worker's step lowers what is left, and no other step raises it.
  Step-Lowers :
      {s t : State} (i : ℕ) (st : Step n s t) → IsStopped s → Lowers i s t (own i (mover st))
  unfolding push push_batch notify_one_idle raise_if try_pop prepare_park cancel_park leave_park
  Step-Lowers i (pushes task) v = (v, omega arith)
  Step-Lowers {s} i (pushes_batch tasks) v =
      ((v.0, (push_batch_lem tasks s.g).1 ∙ v.1, v.2), omega arith)
  Step-Lowers i notifies v = (v, omega arith)
  Step-Lowers {s} i (signal j {e} l h k) v = (v, is_woken i s.workers j (woken e) h (omega arith))
  Step-Lowers i (signal_none w k) v = (v, omega arith)
  Step-Lowers {s} i (spurious j {e} l h) v = (v, is_woken i s.workers j (woken e) h (omega arith))
  Step-Lowers i halt v = ((refl, v.1, v.2), omega arith)
  Step-Lowers i (stops h f) v = absurd (false≢true (sym f ∙ v.1))
  Step-Lowers i (signals_all h) v = absurd (false≢true (sym v.2 ∙ h))
  Step-Lowers i (searches j l h r) v = absurd (false≢true (sym r ∙ v.0))
  Step-Lowers {s} i (takes j l h) v =
      ((v.0, (try_pop_lem s.g).1 ∙ v.1, v.2), moved i s.workers j resuming h (omega arith))
  Step-Lowers {s} i (takes_elsewhere j l h) v = (v, moved i s.workers j resuming h (omega arith))
  Step-Lowers {s} i (returns j l h) v = (v, moved i s.workers j working h (omega arith))
  Step-Lowers {s} i (prepares j l h) v =
      (v, moved i s.workers j (prepared s.g.wake_epoch) h (omega arith))
  Step-Lowers {s} i (takes_again j l h q) v =
      ((v.0, (try_pop_lem s.g).1 ∙ v.1, v.2), moved i s.workers j cancelling h (omega arith))
  Step-Lowers {s} i (finds_elsewhere j l h) v = (v, moved i s.workers j cancelling h (omega arith))
  Step-Lowers {s} i (cancels j l h) v = (v, moved i s.workers j resuming h (omega arith))
  Step-Lowers {s} i (finds_none j {e} l h q) v =
      (v, moved i s.workers j (parking e) h (omega arith))
  Step-Lowers {s} i (waits j {e} l h m) v = absurd (false≢true (sym m ∙ leaves_anyway s e v))
  Step-Lowers {s} i (waits_again j {e} l h m) v = absurd (false≢true (sym m ∙ leaves_anyway s e v))
  Step-Lowers {s} i (leaves j l h m) v = (v, moved i s.workers j working h (omega arith))
  Step-Lowers {s} i (leaves_woken j l h m) v = (v, moved i s.workers j working h (omega arith))
  Step-Lowers {s} i (quits j l h k) v = (v, moved i s.workers j gone h (omega arith))

  Run-Lowers : {i : ℕ} {s t : State} {k : ℕ} → Run i s t k → IsStopped s → Lowers i s t k
  Run-Lowers done v = (v, omega arith)
  Run-Lowers {i} (more r st) v =
      let (w, l) = Run-Lowers r v in let (x, m) = Step-Lowers i st w in (x, omega arith)

  rank-le : (w : Worker) → rank w ≤ 5
  rank-le working = omega arith
  rank-le searching = omega arith
  rank-le resuming = omega arith
  rank-le (prepared e) = omega arith
  rank-le cancelling = omega arith
  rank-le (parking e) = omega arith
  rank-le (waiting e) = omega arith
  rank-le (woken e) = omega arith
  rank-le gone = omega arith

  -- A worker's next step, where it does not wait and has not left.
  next_step :
      {s : State} (i : ℕ) (w : Worker)
      → i < n
      → IsStopped s
      → s.workers i ≡ w
      → is_waiting w ≡ false
      → w ≢ gone
      → w ≢ resuming
      → (t : State) × (st : Step n s t) × (mover st ≡ some i)
  next_step i working l v h a d c = (_, quits i l h v.0, refl)
  next_step i searching l v h a d c = (_, prepares i l h, refl)
  next_step {s} i (prepared e) l v h a d c = elim (Bool-cases (is_empty s.g.queue)) [
    | inl q ↦ (_, finds_none i l h q, refl)
    | inr q ↦ (_, takes_again i l h q, refl)
  ]
  next_step i cancelling l v h a d c = (_, cancels i l h, refl)
  next_step {s} i (parking e) l v h a d c = (_, leaves i l h (leaves_anyway s e v), refl)
  next_step i (waiting e) l v h a d c = absurd (ground arith)
  next_step {s} i (woken e) l v h a d c = (_, leaves_woken i l h (leaves_anyway s e v), refl)
  next_step i resuming l v h a d c = absurd (c refl)
  next_step i gone l v h a d c = absurd (d refl)

-- With from 1 to 2 ^ 32 - 1 workers, as long as the epoch has been raised fewer than 2 ^ 64 times:
-- once `Shutdown` has returned, each worker makes at most five steps in every run from then on, the return
-- from a coroutine included, and as long as it is not in a coroutine and has not left its loop, it can
-- make its next step at once. So all workers leave, and the destructor's joins return, if the coroutines
-- that still run return control.
pub shutdown-joins :
    (n : ℕ) {s : State}
    → Reach n s
    → 0 < n
    → n < 2 ^ 32
    → s.raised < word
    → IsStopped s
    → (i : ℕ) → i < n
    → ((t : State) (k : ℕ) → Run n i s t k → k ≤ 5)
      × (s.workers i ≢ gone
          → s.workers i ≢ resuming
          → (t : State) × (st : Step n s t) × (mover n st ≡ some i))
shutdown-joins n {s} r p few b v i l = (
  λ t k run. omega (arith, (Run-Lowers n run v).1, rank-le n (s.workers i)),
  λ d c. next_step n i (s.workers i) l v refl (stopped-wakes_all n i r p few b v.1 v.2) d c,
)
