-- ===== src/GlobalQueue/Parking.antt =====
-- No task of the global queue is forgotten while workers park, and no worker waits after `stop`.
use acnet.Prelude.{
  ℕ, ◌^◌, ◌≤◌, ◌<◌, ◌≡◌, ltb, true, false, arith, word, is_empty, Bool-cases, inl, inr, ap, sym,
  ◌∙◌, number_of, number_of-pos, false≢true, number_of-le, number_of-find,
}
use acnet.GlobalQueue.{may_leave}
use acnet.GlobalQueue.Workers.{waiting, is_waiting, State, Reach}
use acnet.GlobalQueue.Invariant.{is_idle, is_awake}
use acnet.GlobalQueue.Keeping.{may_leave-false, worker_at}
use acnet.GlobalQueue.Reached.{Reach-Inv}

-- With from 1 to 2 ^ 32 - 1 workers, as long as the epoch has been raised fewer than 2 ^ 64 times and
-- the scheduler is not shutting down: while a task is in the global queue and no signal is still to
-- come, some worker is in its loop and does not wait.
pub no_lost_task :
    (n : ℕ) {s : State}
    → Reach n s
    → 0 < n
    → n < 2 ^ 32
    → s.raised < word
    → s.halted ≡ false
    → is_empty s.g.queue ≡ false
    → s.signals ≡ 0
    → (i : ℕ) × (i < n) × (is_awake (s.workers i) ≡ true)
no_lost_task n {s} r p few b h q z =
    number_of-find is_awake n s.workers (omega (arith, (Reach-Inv n p few r b).live h q))

-- Under the same bounds, once the queue has been stopped and the signal to all has been given, no
-- worker waits, then and ever after.
pub stopped-wakes_all :
    (n : ℕ) {s : State} (i : ℕ)
    → Reach n s
    → 0 < n
    → n < 2 ^ 32
    → s.raised < word
    → s.g.stop_flag ≡ true
    → s.signal_all ≡ false
    → is_waiting (s.workers i) ≡ false
stopped-wakes_all n {s} i r p few b h a =
    let v = Reach-Inv n p few r b in
    elim (v.stopped h) [
      | inl c ↦ absurd (false≢true (sym a ∙ c))
      | inr c ↦ elim (Bool-cases (is_waiting (s.workers i))) [
        | inr w ↦ w
        | inl w ↦ elim (Bool-cases (ltb i n)) [
          | inl l ↦ absurd (omega (arith, number_of-pos is_waiting n s.workers i (ground arith) w))
          | inr l ↦ absurd (false≢true (sym (ap is_waiting (v.outside i (ground arith))) ∙ w))
        ]
      ]
    ]

-- Under the same bounds, `idle_threads_` counts the workers between `prepare_park` and the end of
-- their parking.
pub idle_threads_lem :
    (n : ℕ) {s : State}
    → Reach n s
    → 0 < n
    → n < 2 ^ 32
    → s.raised < word
    → (s.g.idle_threads ≡ number_of is_idle n s.workers) × (s.g.idle_threads ≤ n)
idle_threads_lem n {s} r p few b =
    let v = Reach-Inv n p few r b in
    (v.idle, omega (arith, v.idle, number_of-le is_idle n s.workers))

-- Under the same bounds, while a task is in the global queue every worker that waits would find the
-- predicate of its wait true.
pub waiting-may_leave :
    (n : ℕ) {s : State} (i e : ℕ)
    → Reach n s
    → 0 < n
    → n < 2 ^ 32
    → s.raised < word
    → is_empty s.g.queue ≡ false
    → s.workers i ≡ waiting e
    → may_leave e s.g ≡ true
waiting-may_leave n {s} i e r p few b q w =
    let v = Reach-Inv n p few r b in
    let k = worker_at i v w in
    elim (Bool-cases (may_leave e s.g)) [
      | inl c ↦ c
      | inr c ↦ absurd (false≢true (sym q ∙ k.1 (sym (may_leave-false e s.g c).0 ∙ v.epoch)))
    ]
