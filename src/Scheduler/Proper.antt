-- ===== src/Scheduler/Proper.antt =====
-- No call of src/core/actor_scheduler.cc puts a null handle into a queue.
use acnet.Prelude.{
  ℕ, zero, suc, ◌+◌, ◌^◌, ◌%◌, ◌<◌, ◌==◌, leb, Option, none, some, List, [], ◌∷◌, ◌++◌, length,
  Bool-cases, Option-cases, inl, inr, list_cases, update_at, update_at-all, subst, sym, ap,
}
use acnet.WorkStealing.Deque.{take_last, take_first}
use acnet.WorkStealing.Sequential.{AllPos, AllPos-snoc}
use acnet.GlobalQueue.{try_pop}
use acnet.Scheduler.{
  ActorScheduler, queue_size, hint_if_many, enqueue, enqueue_batch, pop_global, pop_local,
  steal_from, steal_loop, search_queues, try_get_task,
}
use acnet.Scheduler.Tasks.{hint_if_many-queue, push-queue, push_batch-queue}
use acnet.Scheduler.Search.{IsProper}

AllPos-append : (xs ys : List ℕ) → AllPos xs → AllPos ys → AllPos (xs ++ ys)
AllPos-append [] ys a b = b
AllPos-append (x ∷ xs) ys (h, a) b = (h, AllPos-append xs ys a b)

take_last-AllPos : (xs : List ℕ) → AllPos xs → AllPos (take_last xs).0
unfolding take_last
take_last-AllPos [] a = tt
take_last-AllPos (x ∷ []) a = tt
take_last-AllPos (x ∷ y ∷ ys) (h, a) = (h, take_last-AllPos (y ∷ ys) a)

take_first-AllPos : (xs : List ℕ) → AllPos xs → AllPos (take_first xs).0
unfolding take_first
take_first-AllPos [] a = tt
take_first-AllPos (x ∷ xs) (h, a) = a

-- Each call changes one queue, which is proper afterwards.
local-IsProper :
    (s : ActorScheduler) (w : ℕ) (xs : List ℕ)
    → IsProper s
    → AllPos xs
    → IsProper (record s { local_queue = update_at s.local_queue w xs })
local-IsProper s w xs p a = record {
  global = p.global;
  local = update_at-all (λ _. AllPos) s.local_queue w xs a (λ j _. p.local j);
}

hint_if_many-IsProper :
    (xs : List ℕ) (s : ActorScheduler) → IsProper s → IsProper (hint_if_many xs s)
hint_if_many-IsProper xs s p =
    let (g, l) = hint_if_many-queue xs s in
    record {
      global = subst AllPos (sym g) p.global;
      local = λ i. subst AllPos (sym (ap (λ q. q i) l)) (p.local i);
    }

pub enqueue-IsProper :
    (caller : Option ℕ) (task : ℕ) (s : ActorScheduler)
    → 0 < task
    → IsProper s
    → IsProper (enqueue caller task s)
unfolding enqueue
enqueue-IsProper none task s h p = record {
  global =
      subst AllPos (sym (push-queue task s.global_queue))
        (AllPos-snoc s.global_queue.queue task p.global h);
  local = p.local;
}
enqueue-IsProper (some w) task s h p =
    elim (Bool-cases (leb queue_size (length (s.local_queue w)))) [
      | inl e ↦ simp e (record {
        global =
            subst AllPos (sym (push-queue task s.global_queue))
              (AllPos-snoc s.global_queue.queue task p.global h);
        local = p.local;
      })
      | inr e ↦ simp e (
          let xs = s.local_queue w ++ task ∷ [] in
          hint_if_many-IsProper xs (record s { local_queue = update_at s.local_queue w xs })
            (local-IsProper s w xs p (AllPos-snoc (s.local_queue w) task (p.local w) h)))
    ]

pub enqueue_batch-IsProper :
    (tasks : List ℕ) (s : ActorScheduler)
    → AllPos tasks
    → IsProper s
    → IsProper (enqueue_batch tasks s)
unfolding enqueue_batch
enqueue_batch-IsProper tasks s a p = record {
  global =
      subst AllPos (sym (push_batch-queue tasks s.global_queue))
        (AllPos-append s.global_queue.queue tasks p.global a);
  local = p.local;
}

pop_global-IsProper : (s : ActorScheduler) → IsProper s → IsProper (pop_global s).0
unfolding pop_global try_pop
pop_global-IsProper s p = elim (list_cases s.global_queue.queue) [
  | inl e ↦ rw (e, try_pop) p
  | inr (y, ys, e) ↦
      let a : AllPos (y ∷ ys) = subst AllPos e p.global in
      rw (e, try_pop) (record { global = a.1; local = p.local })
]

pop_local-IsProper : (w : ℕ) (s : ActorScheduler) → IsProper s → IsProper (pop_local w s).0
unfolding pop_local
pop_local-IsProper w s p = elim (Option-cases (take_last (s.local_queue w)).1) [
  | inl e ↦ rw (e, pop_local) p
  | inr (task, e) ↦
      rw (e, pop_local)
        (local-IsProper s w (take_last (s.local_queue w)).0 p
          (take_last-AllPos (s.local_queue w) (p.local w)))
]

steal_from-IsProper :
    (target : ℕ) (s : ActorScheduler) → IsProper s → IsProper (steal_from target s).0
unfolding steal_from
steal_from-IsProper target s p = elim (Option-cases (take_first (s.local_queue target)).1) [
  | inl e ↦ rw (e, steal_from) p
  | inr (task, e) ↦
      let rest = (take_first (s.local_queue target)).0 in
      rw (e, steal_from)
        (hint_if_many-IsProper rest (record s { local_queue = update_at s.local_queue target rest })
          (local-IsProper s target rest p
            (take_first-AllPos (s.local_queue target) (p.local target))))
]

steal_loop-IsProper :
    (n w rounds target : ℕ) (s : ActorScheduler)
    → IsProper s
    → IsProper (steal_loop n w rounds target s).0
unfolding steal_loop
steal_loop-IsProper n w zero target s p = p
steal_loop-IsProper n w (suc rounds) target s p =
    let rest = steal_loop-IsProper n w rounds ((target + 1) % n) s p in
    elim (Bool-cases (target == w)) [
      | inl e ↦ rw (e, steal_loop) rest
      | inr e ↦ elim (Option-cases (steal_from target s).1) [
        | inl o ↦ rw (e, steal_loop, o) rest
        | inr (task, o) ↦ rw (e, steal_loop, o) (steal_from-IsProper target s p)
      ]
    ]

search_queues-IsProper :
    (n w rng : ℕ) (s : ActorScheduler) → IsProper s → IsProper (search_queues n w rng s).0
unfolding search_queues
search_queues-IsProper n w rng s p =
    let own = pop_local-IsProper w s p in
    let shared = pop_global-IsProper (pop_local w s).0 own in
    elim (Bool-cases ((pop_local w s).1 == 0)) [
      | inr e ↦ rw (e, search_queues) own
      | inl e ↦ elim (Bool-cases ((pop_global (pop_local w s).0).1 == 0)) [
        | inr g ↦ rw (e, search_queues, g) shared
        | inl g ↦
            rw (e, search_queues, g)
              (steal_loop-IsProper n w n (rng % n) (pop_global (pop_local w s).0).0 shared)
      ]
    ]

pub try_get_task-IsProper :
    (n w tick rng : ℕ) (s : ActorScheduler) → IsProper s → IsProper (try_get_task n w tick rng s).0
unfolding try_get_task
try_get_task-IsProper n w tick rng s p = elim (Bool-cases (((tick + 1) % 2 ^ 32) % 61 == 0)) [
  | inr e ↦ rw (e, try_get_task) (search_queues-IsProper n w rng s p)
  | inl e ↦ elim (Bool-cases ((pop_global s).1 == 0)) [
    | inr g ↦ rw (e, try_get_task, g) (pop_global-IsProper s p)
    | inl g ↦
        rw (e, try_get_task, g)
          (search_queues-IsProper n w rng (pop_global s).0 (pop_global-IsProper s p))
  ]
]
