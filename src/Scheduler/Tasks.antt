-- ===== src/Scheduler/Tasks.antt =====
-- What is in the queues, through the calls of the scheduler. Each task has a weight, and the null
-- handle has none: with the weight 1 of one task its number in the queues is counted, and with the
-- weight 1 of every task the number of all.
use mathlib.Core.List.{append-nil}
use acnet.Prelude.{
  ◌%◌, ℕ, zero, suc, ◌+◌, ◌<◌, ◌≡◌, ◌==◌, refl, ltb, leb, if◌then◌else◌, Option, none, some, List,
  [], ◌∷◌, ◌++◌, arith, length, true, ==-to_eq, update_at, sum_of, sum_of-update, ap, sym, ◌∙◌,
  Bool-cases, Option-cases, inl, inr, list_cases,
}
use acnet.WorkStealing.Deque.{take_last, take_first}
use acnet.GlobalQueue.{GlobalQueue, push, push_batch, try_pop, notify_one_idle}
use acnet.Scheduler.{
  ActorScheduler, queue_size, hint_if_many, enqueue, enqueue_batch, pop_global, pop_local,
  steal_from, steal_loop, search_queues,
}

abbrev pub weight : (ℕ → ℕ) → List ℕ → ℕ
weight f [] = 0
weight f (x ∷ xs) = f x + weight f xs

pub weight-append : (f : ℕ → ℕ) (xs ys : List ℕ) → weight f (xs ++ ys) ≡ weight f xs + weight f ys
weight-append f [] ys = omega arith
weight-append f (x ∷ xs) ys = ground (arith, weight-append f xs ys)

-- The weight of the global queue and the queues of the first `n` workers.
abbrev pub queued : ℕ → (ℕ → ℕ) → ActorScheduler → ℕ
queued n f s = weight f s.global_queue.queue + sum_of (weight f) n s.local_queue

-- The weights that count the task `x`, and any task but the null handle.
abbrev pub is_task : ℕ → ℕ → ℕ
is_task x task = if x == task then 1 else 0

abbrev pub any_task : ℕ → ℕ
any_task task = if task == 0 then 0 else 1

abbrev pub amount : (ℕ → ℕ) → Option ℕ → ℕ
amount f none = 0
amount f (some y) = f y

weight-take_last :
    (f : ℕ → ℕ) (xs : List ℕ) → weight f xs ≡ weight f (take_last xs).0 + amount f (take_last xs).1
unfolding take_last
weight-take_last f [] = omega arith
weight-take_last f (y ∷ []) = ground arith
weight-take_last f (y ∷ z ∷ zs) = ground (arith, weight-take_last f (z ∷ zs))

weight-take_first :
    (f : ℕ → ℕ) (xs : List ℕ)
    → weight f xs ≡ weight f (take_first xs).0 + amount f (take_first xs).1
unfolding take_first
weight-take_first f [] = omega arith
weight-take_first f (y ∷ ys) = ground arith

pub hint_if_many-queue :
    (xs : List ℕ) (s : ActorScheduler)
    → ((hint_if_many xs s).global_queue.queue ≡ s.global_queue.queue)
      × ((hint_if_many xs s).local_queue ≡ s.local_queue)
unfolding hint_if_many notify_one_idle
hint_if_many-queue xs s = elim (Bool-cases (ltb 1 (length xs))) [
  | inl e ↦ simp e (refl, refl)
  | inr e ↦ simp e (refl, refl)
]

pub push-queue : (task : ℕ) (g : GlobalQueue) → (push task g).0.queue ≡ g.queue ++ task ∷ []
unfolding push
push-queue task g = refl

pub push_batch-queue :
    (tasks : List ℕ) (g : GlobalQueue) → (push_batch tasks g).0.queue ≡ g.queue ++ tasks
unfolding push_batch
push_batch-queue [] g = sym (append-nil g.queue)
push_batch-queue (t ∷ ts) g = refl

pub null-weight : (f : ℕ → ℕ) (task : ℕ) → f 0 ≡ 0 → (task == 0) ≡ true → f task ≡ 0
null-weight f task h e = ap f (==-to_eq task 0 e) ∙ h

weight-snoc :
    (f : ℕ → ℕ) (task : ℕ) (xs : List ℕ) → weight f (xs ++ task ∷ []) ≡ weight f xs + f task
weight-snoc f task xs = ground (arith, weight-append f xs (task ∷ []))

-- The caller is a worker of the scheduler or no worker.
abbrev pub IsCaller : ℕ → Option ℕ → Type 0
IsCaller n none = Unit {0}
IsCaller n (some w) = w < n

module _ (n : ℕ) (f : ℕ → ℕ) where
  -- `Enqueue` puts the task into one queue, once.
  pub enqueue-queued :
      (caller : Option ℕ) (task : ℕ) (s : ActorScheduler)
      → IsCaller n caller
      → queued n f (enqueue caller task s) ≡ queued n f s + f task
  unfolding enqueue
  enqueue-queued none task s c = omega (
    arith,
    ap (weight f) (push-queue task s.global_queue),
    weight-snoc f task s.global_queue.queue,
  )
  enqueue-queued (some w) task s c = elim (Bool-cases (leb queue_size (length (s.local_queue w)))) [
    | inl e ↦ simp e (
        omega (
          arith,
          ap (weight f) (push-queue task s.global_queue),
          weight-snoc f task s.global_queue.queue,
        ))
    | inr e ↦ simp e (
        let xs = s.local_queue w ++ task ∷ [] in
        let (g, l) =
          hint_if_many-queue xs (record s { local_queue = update_at s.local_queue w xs }) in
        omega (
          arith,
          ap (weight f) g,
          ap (sum_of (weight f) n) l,
          sum_of-update (weight f) n s.local_queue w xs c,
          weight-snoc f task (s.local_queue w),
        ))
  ]

  pub enqueue_batch-queued :
      (tasks : List ℕ) (s : ActorScheduler)
      → queued n f (enqueue_batch tasks s) ≡ queued n f s + weight f tasks
  unfolding enqueue_batch
  enqueue_batch-queued tasks s = omega (
    arith,
    ap (weight f) (push_batch-queue tasks s.global_queue),
    weight-append f s.global_queue.queue tasks,
  )

  -- A queue of a worker loses the task that is handed out.
  local-queued :
      (w : ℕ) (s : ActorScheduler) (rest : List ℕ) (k : ℕ)
      → w < n
      → weight f (s.local_queue w) ≡ weight f rest + k
      → queued n f s ≡ queued n f (record s { local_queue = update_at s.local_queue w rest }) + k
  local-queued w s rest k l e = omega (arith, e, sum_of-update (weight f) n s.local_queue w rest l)

  -- What a search hands out has left the queues, once; nothing else has changed.
  abbrev pub Handed : ActorScheduler → ActorScheduler → ℕ → Type 0
  Handed s s' task = queued n f s ≡ queued n f s' + f task

  pub pop_global-queued :
      (s : ActorScheduler) → f 0 ≡ 0 → let (s', task) = pop_global s in Handed s s' task
  unfolding pop_global try_pop
  pop_global-queued s h = elim (list_cases s.global_queue.queue) [
    | inl e ↦ rw (e, try_pop) (ground (arith, ap (weight f) e))
    | inr (y, ys, e) ↦ rw (e, try_pop) (ground (arith, ap (weight f) e))
  ]

  pop_local-queued :
      (w : ℕ) (s : ActorScheduler)
      → w < n
      → f 0 ≡ 0
      → let (s', task) = pop_local w s in Handed s s' task
  unfolding pop_local
  pop_local-queued w s l h =
      let c = weight-take_last f (s.local_queue w) in
      elim (Option-cases (take_last (s.local_queue w)).1) [
        | inl e ↦ rw (e, pop_local) (ground arith)
        | inr (task, e) ↦
            rw (e, pop_local)
              (local-queued w s (take_last (s.local_queue w)).0 (f task) l
                (c ∙ ap (λ o. weight f (take_last (s.local_queue w)).0 + amount f o) e))
      ]

  steal_from-queued :
      (target : ℕ) (s : ActorScheduler)
      → target < n
      → let (s', out) = steal_from target s in queued n f s ≡ queued n f s' + amount f out
  unfolding steal_from
  steal_from-queued target s l =
      let c = weight-take_first f (s.local_queue target) in
      elim (Option-cases (take_first (s.local_queue target)).1) [
        | inl e ↦ rw (e, steal_from) (omega arith)
        | inr (task, e) ↦
            let rest = (take_first (s.local_queue target)).0 in
            let (g, q) =
              hint_if_many-queue rest
                (record s { local_queue = update_at s.local_queue target rest }) in
            let k =
              local-queued target s rest (f task) l (c ∙ ap (λ o. weight f rest + amount f o) e) in
            rw (e, steal_from) (omega (arith, k, ap (weight f) g, ap (sum_of (weight f) n) q))
      ]

  steal_loop-queued :
      (w rounds target : ℕ) (s : ActorScheduler)
      → f 0 ≡ 0
      → target < n
      → let (s', task) = steal_loop n w rounds target s in Handed s s' task
  unfolding steal_loop
  steal_loop-queued w zero target s h l = ground arith
  steal_loop-queued w (suc rounds) target s h l =
      let rest = steal_loop-queued w rounds ((target + 1) % n) s h (grind arith) in
      elim (Bool-cases (target == w)) [
        | inl e ↦ rw (e, steal_loop) rest
        | inr e ↦ elim (Option-cases (steal_from target s).1) [
          | inl o ↦ rw (e, steal_loop, o) rest
          | inr (task, o) ↦
              rw (e, steal_loop, o)
                (steal_from-queued target s l
                  ∙ ap (λ p. queued n f (steal_from target s).0 + amount f p) o)
        ]
      ]

  pub search_queues-queued :
      (w rng : ℕ) (s : ActorScheduler)
      → f 0 ≡ 0
      → w < n
      → let (s', task) = search_queues n w rng s in Handed s s' task
  unfolding search_queues
  search_queues-queued w rng s h l =
      let a = (pop_local w s).0 in
      let own = pop_local-queued w s l h in
      elim (Bool-cases ((pop_local w s).1 == 0)) [
        | inr e ↦ rw (e, search_queues) own
        | inl e ↦
            let z : f (pop_local w s).1 ≡ 0 = null-weight f _ h e in
            let shared = pop_global-queued a h in
            elim (Bool-cases ((pop_global a).1 == 0)) [
              | inr g ↦ rw (e, search_queues, g) (omega (arith, own, z, shared))
              | inl g ↦
                  let y : f (pop_global a).1 ≡ 0 = null-weight f _ h g in
                  rw (e, search_queues, g)
                    (omega (
                      arith,
                      own,
                      z,
                      shared,
                      y,
                      steal_loop-queued w n (rng % n) (pop_global a).0 h (grind arith),
                    ))
            ]
      ]
