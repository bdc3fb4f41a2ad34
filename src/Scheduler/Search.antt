-- ===== src/Scheduler/Search.antt =====
-- A search finds a task if there is one, and hands each out once.
use native.Mathlib.Nat.{mod-eq_of_lt, mod-add-mod}
use acnet.Prelude.{
  on_ring, ℕ, zero, suc, ◌+◌, ◌^◌, ◌%◌, ◌<◌, ◌≡◌, ◌==◌, refl, if◌then◌else◌, none, some, [], ◌∷◌,
  arith, Bool-cases, inl, inr, ap, sym, ◌∙◌, subst, list_cases, snoc_cases, ◌⊎◌,
}
use acnet.WorkStealing.Deque.{take_last, take_first, take_last-snoc}
use acnet.WorkStealing.Sequential.{AllPos, AllPos-init}
use acnet.GlobalQueue.{GlobalQueue, try_pop}
use acnet.Scheduler.{
  ActorScheduler, pop_global, pop_local, steal_from, steal_loop, search_queues, try_get_task,
}
use acnet.Scheduler.Tasks.{queued, null-weight, pop_global-queued, search_queues-queued}

-- What a worker's search hands out has left the queues, once, and nothing else has changed, wherever
-- the search found it.
pub try_get_task-queued :
    (n : ℕ) (f : ℕ → ℕ) (w tick rng : ℕ) (s : ActorScheduler)
    → f 0 ≡ 0
    → w < n
    → let (s', tick', task) = try_get_task n w tick rng s in queued n f s ≡ queued n f s' + f task
unfolding try_get_task
try_get_task-queued n f w tick rng s h l =
    let polled = (pop_global s).0 in
    let global = pop_global-queued n f s h in
    elim (Bool-cases (((tick + 1) % 2 ^ 32) % 61 == 0)) [
      | inr e ↦ rw (e, try_get_task) (search_queues-queued n f w rng s h l)
      | inl e ↦ elim (Bool-cases ((pop_global s).1 == 0)) [
        | inr g ↦ rw (e, try_get_task, g) global
        | inl g ↦
            rw (e, try_get_task, g)
              (omega
                (arith, global, null-weight f _ h g, search_queues-queued n f w rng polled h l))
      ]
    ]

-- No queue holds a null handle.
pub record IsProper (s : ActorScheduler) : Type 0 where
  pub global : AllPos s.global_queue.queue
  pub local : (i : ℕ) → AllPos (s.local_queue i)

try_pop-none :
    (g : GlobalQueue) → AllPos g.queue → (try_pop g).1 ≡ 0 → (g.queue ≡ []) × ((try_pop g).0 ≡ g)
unfolding try_pop
try_pop-none g a h = elim (list_cases g.queue) [
  | inl e ↦ (e, simp (e, try_pop) refl)
  | inr (y, ys, e) ↦
      let k : (try_pop g).1 ≡ y = rw (e, try_pop) refl in
      let b : AllPos (y ∷ ys) = subst AllPos e a in absurd (omega (arith, b.0, k, h))
]

pop_global-none :
    (s : ActorScheduler)
    → IsProper s
    → (pop_global s).1 ≡ 0
    → (s.global_queue.queue ≡ []) × ((pop_global s).0 ≡ s)
unfolding pop_global
pop_global-none s p h =
    let (e, same) = try_pop-none s.global_queue p.global h in
    (e, ap (λ g. record s { global_queue = g }) same)

pop_local-none :
    (w : ℕ) (s : ActorScheduler)
    → IsProper s
    → (pop_local w s).1 ≡ 0
    → (s.local_queue w ≡ []) × ((pop_local w s).0 ≡ s)
unfolding pop_local take_last
pop_local-none w s p h = elim (snoc_cases (s.local_queue w)) [
  | inl e ↦ (e, rw (e, pop_local) refl)
  | inr (ys, y, e) ↦
      let a = (AllPos-init ys y (subst AllPos e (p.local w))).1 in
      let t : take_last (s.local_queue w) ≡ (ys, some y) = ap take_last e ∙ take_last-snoc ys y in
      let k : (pop_local w s).1 ≡ y = rw (t, pop_local) refl in absurd (omega (arith, a, k, h))
]

steal_from-cases :
    (target : ℕ) (s : ActorScheduler)
    → IsProper s
    → ((s.local_queue target ≡ []) × ((steal_from target s).1 ≡ none))
      ⊎ ((task : ℕ) × ((steal_from target s).1 ≡ some task) × (0 < task))
unfolding steal_from take_first
steal_from-cases target s p = elim (list_cases (s.local_queue target)) [
  | inl e ↦ inl (e, rw (e, steal_from) refl)
  | inr (y, ys, e) ↦
      let a : AllPos (y ∷ ys) = subst AllPos e (p.local target) in
      inr (y, rw (e, steal_from) refl, a.0)
]

-- The loop visits `rounds` workers in a ring from `target`.
module _ (n w : ℕ) (s : ActorScheduler) (p : IsProper s) where
  abbrev Visited : ℕ → ℕ → Type 0
  Visited rounds target =
      (j : ℕ) → j < rounds → ¬ (target + j) % n ≡ w → s.local_queue ((target + j) % n) ≡ []

  unfoldable Searched : ℕ → ℕ → Type 0
  Searched rounds target = (steal_loop n w rounds target s).1 ≡ 0 → Visited rounds target

  Visited-suc :
      (rounds target : ℕ)
      → target < n
      → (¬ target ≡ w → s.local_queue target ≡ [])
      → Visited rounds ((target + 1) % n)
      → Visited (suc rounds) target
  Visited-suc rounds target l here rest zero h d =
      let e : (target + 0) % n ≡ target = ap (λ k. k % n) (omega arith) ∙ mod-eq_of_lt l in
      ap s.local_queue e ∙ here (λ q. d (e ∙ q))
  Visited-suc rounds target l here rest (suc j) h d =
      let e : ((target + 1) % n + j) % n ≡ (target + suc j) % n =
        mod-add-mod (target + 1) n j ∙ ap (λ k. k % n) (omega arith) in
      ap s.local_queue (sym e) ∙ rest j (omega arith) (λ q. d (sym e ∙ q))

  steal_loop-none : (rounds target : ℕ) → target < n → Searched rounds target
  unfolding Searched steal_loop
  steal_loop-none zero target l = λ h j k. absurd (omega arith)
  steal_loop-none (suc rounds) target l = λ h.
      let next = steal_loop-none rounds ((target + 1) % n) (grind arith) in
      elim (Bool-cases (target == w)) [
        | inl e ↦
            let k : (steal_loop n w (suc rounds) target s).1
                ≡ (steal_loop n w rounds ((target + 1) % n) s).1 =
              rw (e, steal_loop) refl in
            Visited-suc rounds target l (λ d. absurd (d (ground arith))) (next (sym k ∙ h))
        | inr e ↦ elim (steal_from-cases target s p) [
          | inl (here, o) ↦
              let k : (steal_loop n w (suc rounds) target s).1
                  ≡ (steal_loop n w rounds ((target + 1) % n) s).1 =
                rw (e, steal_loop, o) refl in
              Visited-suc rounds target l (λ d. here) (next (sym k ∙ h))
          | inr (task, o, a) ↦
              let k : (steal_loop n w (suc rounds) target s).1 ≡ task =
                rw (e, steal_loop, o) refl in
              absurd (omega (arith, k, h, a))
        ]
      ]

-- No queue of `n` workers holds a task, nor does the global queue.
abbrev pub IsEmpty : ℕ → ActorScheduler → Type 0
IsEmpty n s = (s.global_queue.queue ≡ []) × ((i : ℕ) → i < n → s.local_queue i ≡ [])

-- A search behind the worker's own queue.
abbrev share : (n w rng : ℕ) → ActorScheduler → ActorScheduler × ℕ
share n w rng a =
    let (b, shared) = pop_global a in
    if shared == 0 then steal_loop n w n (rng % n) b else (b, shared)

module _ (n w : ℕ) (s : ActorScheduler) (p : IsProper s) (l : w < n) where
  steal_loop-all :
      (rng : ℕ)
      → (steal_loop n w n (rng % n) s).1 ≡ 0
      → s.local_queue w ≡ []
      → (i : ℕ) → i < n
      → s.local_queue i ≡ []
  unfolding Searched
  steal_loop-all rng h own i k =
      let (j, b, e) = on_ring n (rng % n) i (grind arith) k in
      elim (Bool-cases (i == w)) [
        | inl q ↦ ap s.local_queue (ground arith) ∙ own
        | inr d ↦
            ap s.local_queue (sym e)
            ∙ steal_loop-none n w s p n (rng % n) (grind arith) h j b (λ q. ground (arith, e, q))
      ]

  share-none : (rng : ℕ) → (share n w rng s).1 ≡ 0 → s.local_queue w ≡ [] → IsEmpty n s
  share-none rng h own = elim (Bool-cases ((pop_global s).1 == 0)) [
    | inr f ↦
        let k : (share n w rng s).1 ≡ (pop_global s).1 = rw f refl in absurd (ground (arith, k, h))
    | inl f ↦
        let (none_left, same) = pop_global-none s p (ground arith) in
        let k : (share n w rng s).1 ≡ (steal_loop n w n (rng % n) (pop_global s).0).1 = rw f refl in
        let z = sym (ap (λ b. (steal_loop n w n (rng % n) b).1) same) ∙ sym k ∙ h in
        (none_left, steal_loop-all rng z own)
  ]

  search_queues-none : (rng : ℕ) → (search_queues n w rng s).1 ≡ 0 → IsEmpty n s
  unfolding search_queues
  search_queues-none rng h = elim (Bool-cases ((pop_local w s).1 == 0)) [
    | inr f ↦
        let k : (search_queues n w rng s).1 ≡ (pop_local w s).1 = rw (f, search_queues) refl in
        absurd (ground (arith, k, h))
    | inl f ↦
        let (own, same) = pop_local-none w s p (ground arith) in
        let k : (search_queues n w rng s).1 ≡ (share n w rng (pop_local w s).0).1 =
          rw (f, search_queues) refl in
        share-none rng (sym (ap (λ a. (share n w rng a).1) same) ∙ sym k ∙ h) own
  ]

  -- A worker that comes back from its search without a task has found every queue empty: if no queue
  -- holds a null handle and nobody else touches the queues during the search, the result 0 means that
  -- the global queue and the queues of all the workers are empty, whatever the random start.
  pub try_get_task-IsEmpty : (tick rng : ℕ) → (try_get_task n w tick rng s).2 ≡ 0 → IsEmpty n s
  unfolding try_get_task
  try_get_task-IsEmpty tick rng h = elim (Bool-cases (((tick + 1) % 2 ^ 32) % 61 == 0)) [
    | inr e ↦
        let k : (try_get_task n w tick rng s).2 ≡ (search_queues n w rng s).1 =
          rw (e, try_get_task) refl in
        search_queues-none rng (sym k ∙ h)
    | inl e ↦ elim (Bool-cases ((pop_global s).1 == 0)) [
      | inr f ↦
          let k : (try_get_task n w tick rng s).2 ≡ (pop_global s).1 =
            rw (e, try_get_task, f) refl in
          absurd (ground (arith, k, h))
      | inl f ↦
          let (none_left, same) = pop_global-none s p (ground arith) in
          let k : (try_get_task n w tick rng s).2 ≡ (search_queues n w rng (pop_global s).0).1 =
            rw (e, try_get_task, f) refl in
          search_queues-none rng (sym (ap (λ b. (search_queues n w rng b).1) same) ∙ sym k ∙ h)
    ]
  ]
