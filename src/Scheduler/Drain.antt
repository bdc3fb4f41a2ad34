-- ===== src/Scheduler/Drain.antt =====
-- Every task that has been enqueued is handed out, by the queues of src/core/actor_scheduler.cc, and
-- none is handed out twice.
use acnet.Prelude.{
  ℕ, ◌+◌, ◌-◌, ◌<◌, ◌≤◌, ◌≡◌, ◌==◌, refl, List, [], ◌∷◌, arith, length, count, sum_of-member,
  sum_of-none, ap, Bool-cases, inl, inr,
}
use acnet.WorkStealing.Sequential.{AllPos}
use acnet.Scheduler.{ActorScheduler, try_get_task}
use acnet.Scheduler.Tasks.{queued, weight, is_task, any_task}
use acnet.Scheduler.Search.{IsProper, IsEmpty, try_get_task-queued, try_get_task-IsEmpty}
use acnet.Scheduler.Proper.{try_get_task-IsProper}
use acnet.Scheduler.Runs.{
  IsConserved, Run, Call, searches, call, calls, AreCalls, calls-IsConserved, calls-IsProper,
  at_rest, searching,
}

IsEmpty-queued : (f : ℕ → ℕ) (n : ℕ) (s : ActorScheduler) → IsEmpty n s → queued n f s ≡ 0
IsEmpty-queued f n s (g, l) =
    omega (
      arith,
      ap (weight f) g,
      sum_of-none (weight f) n s.local_queue (λ i h. ap (weight f) (l i h)),
    )

weight-none : (xs : List ℕ) → AllPos xs → weight any_task xs ≡ 0 → xs ≡ []
weight-none [] a h = refl
weight-none (x ∷ xs) (l, a) h = absurd (ground arith)

queued-IsEmpty : (n : ℕ) (s : ActorScheduler) → IsProper s → queued n any_task s ≡ 0 → IsEmpty n s
queued-IsEmpty n s p h = (
  weight-none s.global_queue.queue p.global (omega (arith, h)),
  λ i l.
      weight-none (s.local_queue i) (p.local i)
        (omega (arith, h, sum_of-member (weight any_task) n s.local_queue i l)),
)

-- A search hands out a task, or there is none.
try_get_task-fewer :
    (n w tick rng : ℕ) (s : ActorScheduler)
    → IsProper s
    → w < n
    → queued n any_task (try_get_task n w tick rng s).0 ≡ queued n any_task s - 1
try_get_task-fewer n w tick rng s p l =
    let handed = try_get_task-queued n any_task w tick rng s refl l in
    elim (Bool-cases ((try_get_task n w tick rng s).2 == 0)) [
      | inl e ↦
          let none_left =
            IsEmpty-queued any_task n s
              (try_get_task-IsEmpty n w s p l tick rng (ground (arith, e))) in
          omega (arith, handed, none_left)
      | inr e ↦
          let one : any_task (try_get_task n w tick rng s).2 ≡ 1 = rw e refl in
          omega (arith, handed, one)
    ]

searching-fewer :
    (n w : ℕ) (rngs : List ℕ) (r : Run)
    → IsProper r.scheduler
    → w < n
    → queued n any_task (calls n (searching w rngs) r).scheduler
      ≡ queued n any_task r.scheduler - length rngs
unfolding calls call
searching-fewer n w [] r p l = omega arith
searching-fewer n w (rng ∷ rngs) r p l = omega (
  arith,
  try_get_task-fewer n w (r.ticks w) rng r.scheduler p l,
  searching-fewer n w rngs (call n (searches w rng) r)
      (try_get_task-IsProper n w (r.ticks w) rng r.scheduler p) l,
)

any_task-length : (xs : List ℕ) → weight any_task xs ≤ length xs
any_task-length [] = omega arith
any_task-length (x ∷ xs) = ground (arith, any_task-length xs)

weight-count : (x : ℕ) (xs : List ℕ) → weight (is_task x) xs ≡ count x xs
weight-count x [] = refl
weight-count x (y ∷ ys) = ground (arith, weight-count x ys)

searching-AreCalls : (n w : ℕ) (rngs : List ℕ) → w < n → AreCalls n (searching w rngs)
searching-AreCalls n w [] l = tt
searching-AreCalls n w (rng ∷ rngs) l = (l, searching-AreCalls n w rngs l)

module _ (n : ℕ) (s : ActorScheduler) (ticks : ℕ → ℕ) (cs : List Call) (e : IsEmpty n s)
    (a : AreCalls n cs) where
  conserved : (f : ℕ → ℕ) → f 0 ≡ 0 → IsConserved n f (calls n cs (at_rest s ticks))
  conserved f z =
      calls-IsConserved n f cs (at_rest s ticks) z a (omega (arith, IsEmpty-queued f n s e))

  -- From a scheduler whose queues are empty, after any sequence of calls by its workers and by other
  -- threads that bring no null handle: each task has been enqueued as often as it has been handed out
  -- by the searches and stands in the queues, together.
  pub calls-conserve :
      (x : ℕ)
      → 0 < x
      → let r = calls n cs (at_rest s ticks) in
        queued n (is_task x) r.scheduler + count x r.handed ≡ count x r.entered
  calls-conserve x h =
      let r = calls n cs (at_rest s ticks) in
      omega (
        arith,
        conserved (is_task x) (ground arith),
        weight-count x r.handed,
        weight-count x r.entered,
      )

  -- No task waits for ever: if then one worker searches at least as often as tasks have been enqueued,
  -- whatever its random numbers, all queues are empty, and each task has been handed out exactly as
  -- often as it has been enqueued.
  pub calls-drain :
      (w : ℕ) (rngs : List ℕ)
      → IsProper s
      → w < n
      → length (calls n cs (at_rest s ticks)).entered ≤ length rngs
      → let r = calls n (searching w rngs) (calls n cs (at_rest s ticks)) in
        IsEmpty n r.scheduler × ((x : ℕ) → 0 < x → count x r.handed ≡ count x r.entered)
  calls-drain w rngs p l k =
      let m = calls n cs (at_rest s ticks) in
      let r = calls n (searching w rngs) m in
      let q = calls-IsProper n cs (at_rest s ticks) a p in
      let b = searching-AreCalls n w rngs l in
      let none_left : queued n any_task r.scheduler ≡ 0 = omega (
        arith,
        searching-fewer n w rngs m q l,
        conserved any_task refl,
        any_task-length m.entered,
        k,
      ) in
      let empty =
        queued-IsEmpty n r.scheduler (calls-IsProper n (searching w rngs) m b q) none_left in
      (
        empty,
        λ x h.
            let f = is_task x in
            let c =
              calls-IsConserved n f (searching w rngs) m (ground arith) b
                (conserved f (ground arith)) in
            omega (
              arith,
              c,
              IsEmpty-queued f n r.scheduler empty,
              weight-count x r.handed,
              weight-count x r.entered,
            ),
      )
