-- ===== src/Scheduler/Fairness.antt =====
-- The periodic poll of the global queue in `try_get_task`.
use native.Mathlib.Nat.{mod-add-mod, mod-eq_of_lt}
use native.Mathlib.Decide.{dec_lt}
use acnet.Prelude.{
  ℕ, zero, suc, ◌+◌, ◌-◌, ◌*◌, ◌/◌, ◌^◌, ◌%◌, ◌<◌, ◌≡◌, ◌==◌, refl, true, false, List, ◌∷◌, arith,
  Bool-cases, inl, inr, ap, ◌∙◌,
}
use acnet.GlobalQueue.{try_pop}
use acnet.Scheduler.{ActorScheduler, pop_global, try_get_task}

try_get_task-counter :
    (n w tick rng : ℕ) (s : ActorScheduler) → (try_get_task n w tick rng s).1 ≡ (tick + 1) % 2 ^ 32
unfolding try_get_task
try_get_task-counter n w tick rng s = elim (Bool-cases (((tick + 1) % 2 ^ 32) % 61 == 0)) [
  | inr e ↦ rw (e, try_get_task) refl
  | inl e ↦ elim (Bool-cases ((pop_global s).1 == 0)) [
    | inr f ↦ rw (e, try_get_task, f) refl
    | inl f ↦ rw (e, try_get_task, f) refl
  ]
]

try_get_task-polls :
    (n w tick rng x : ℕ) (xs : List ℕ) (s : ActorScheduler)
    → ((tick + 1) % 2 ^ 32) % 61 ≡ 0
    → 0 < x
    → s.global_queue.queue ≡ x ∷ xs
    → (try_get_task n w tick rng s).2 ≡ x
unfolding try_get_task pop_global try_pop
try_get_task-polls n w tick rng x xs s e h q =
    let k : (pop_global s).1 ≡ x = rw (q, pop_global, try_pop) refl in
    let f : ((pop_global s).1 == 0) ≡ false = ground (arith, k) in
    let t : (((tick + 1) % 2 ^ 32) % 61 == 0) ≡ true = ground (arith, e) in
    rw (t, try_get_task, f) k

counted : (tick k m : ℕ) → tick + k + 1 ≡ m → ((tick + k) % 2 ^ 32 + 1) % 2 ^ 32 ≡ m % 2 ^ 32
counted tick k m e = mod-add-mod (tick + k) (2 ^ 32) 1 ∙ ap (λ c. c % 2 ^ 32) e

-- The next multiple of 61, or the counter's return to 0.
next_poll :
    (tick : ℕ)
    → tick < 2 ^ 32
    → (k : ℕ) × (k < 61) × ((((tick + k) % 2 ^ 32 + 1) % 2 ^ 32) % 61 ≡ 0)
next_poll tick l =
    let m = (tick / 61 + 1) * 61 in
    elim (dec_lt m (2 ^ 32)) [
      | yes h ↦ (
        m - (tick + 1),
        omega arith,
        ap (λ c. c % 61) (counted tick (m - (tick + 1)) m (omega arith) ∙ mod-eq_of_lt h)
            ∙ omega arith,
      )
      | no h ↦ (
        2 ^ 32 - (tick + 1),
        omega arith,
        ap (λ c. c % 61) (counted tick (2 ^ 32 - (tick + 1)) (2 ^ 32) (omega arith)),
      )
    ]

-- A worker's calls one after the other, each in a state and with a random value of its own: others
-- may change the queues between them as they please.
module _ (n w tick : ℕ) (rng : ℕ → ℕ) (at : ℕ → ActorScheduler) where
  -- The worker's counter before each call.
  unfoldable pub counter : ℕ → ℕ
  counter zero = tick
  counter (suc k) = (try_get_task n w (counter k) (rng k) (at k)).1

  counter_lem : tick < 2 ^ 32 → (k : ℕ) → counter k ≡ (tick + k) % 2 ^ 32
  unfolding counter
  counter_lem l zero = omega arith
  counter_lem l (suc k) =
      try_get_task-counter n w (counter k) (rng k) (at k)
      ∙ ap (λ c. (c + 1) % 2 ^ 32) (counter_lem l k)
      ∙ mod-add-mod (tick + k) (2 ^ 32) 1
      ∙ ap (λ c. c % 2 ^ 32) (omega arith)

  -- However busy its own queue is, one of any 61 calls in a row serves the global queue first: where
  -- that queue has a first task at this call, the call hands out this task.
  pub try_get_task-polls_global :
      tick < 2 ^ 32
      → (k : ℕ) × (k < 61)
        × ((x : ℕ) (xs : List ℕ)
            → 0 < x
            → (at k).global_queue.queue ≡ x ∷ xs
            → (try_get_task n w (counter k) (rng k) (at k)).2 ≡ x)
  try_get_task-polls_global l =
      let (k, b, e) = next_poll tick l in
      let c = ap (λ c. ((c + 1) % 2 ^ 32) % 61) (counter_lem l k) ∙ e in
      (k, b, λ x xs h q. try_get_task-polls n w (counter k) (rng k) x xs (at k) c h q)
