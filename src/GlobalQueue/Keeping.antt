-- ===== src/GlobalQueue/Keeping.antt =====
-- The parts of the proof that every step keeps the invariant.
use acnet.Prelude.{
  ℕ, suc, ◌+◌, ◌^◌, ◌≤◌, ◌<◌, ◌≡◌, ◌==◌, refl, ltb, if◌then◌else◌, true, false, List, [], ◌∷◌,
  arith, word, increment, is_empty, Bool-cases, inl, inr, ap, sym, ◌∙◌, subst, ◌⊎◌, update_at, one,
  number_of, number_of-update, number_of-pos, false≢true, number_of-le,
}
use acnet.GlobalQueue.{GlobalQueue, push_batch, try_pop, may_leave, stop}
use acnet.GlobalQueue.Workers.{Worker, waiting, is_waiting, State, issue}
use acnet.GlobalQueue.Invariant.{is_idle, is_awake, WorkerInv, Inv}
use acnet.GlobalQueue.Waking.{waiting_idle, WorkerInv-raise, WorkerInv-keep, WorkerInv-update}

module _ {n : ℕ} {s : State} (v : Inv n s) where
  pub idle_counted : (i : ℕ) → is_idle (s.workers i) ≡ true → 0 < s.g.idle_threads
  idle_counted i h = elim (Bool-cases (ltb i n)) [
    | inl c ↦ omega (arith, v.idle, number_of-pos is_idle n s.workers i (ground arith) h)
    | inr c ↦ absurd (false≢true (sym (ap is_idle (v.outside i (ground arith))) ∙ h))
  ]

  none_idle : 0 < n → s.halted ≡ false → s.g.idle_threads ≡ 0 → 0 < number_of is_awake n s.workers
  none_idle p h z = elim (v.present 0 h) [
    | inl a ↦ number_of-pos is_awake n s.workers 0 p a
    | inr w ↦ absurd (omega (arith, idle_counted 0 (waiting_idle (s.workers 0) w)))
  ]

  pub issue-Inv :
      (g : GlobalQueue) (k : ℕ)
      → 0 < n
      → (if ltb 0 k then suc s.raised else s.raised) < word
      → g.idle_threads ≡ s.g.idle_threads
      → g.stop_flag ≡ s.g.stop_flag
      → g.wake_epoch ≡ (if ltb 0 k then increment s.g.wake_epoch else s.g.wake_epoch)
      → (k ≡ 0 → (is_empty g.queue ≡ is_empty s.g.queue) ⊎ (s.g.idle_threads ≡ 0))
      → Inv n (issue (g, k) s)
  issue-Inv g k p b di ds de dq = elim (Bool-cases (ltb 0 k)) [
    | inl c ↦
        let w : suc s.raised < word =
          subst (λ t. (if t then suc s.raised else s.raised) < word) c b in
        let e : g.wake_epoch ≡ increment s.g.wake_epoch =
          subst (λ t. g.wake_epoch ≡ (if t then increment s.g.wake_epoch else s.g.wake_epoch)) c
            de in
        simp c (record {
          bound = w;
          epoch = omega (arith, e, v.epoch);
          idle = di ∙ v.idle;
          worker = λ i. WorkerInv-raise _ _ s.raised (s.workers i) (v.worker i);
          present = v.present;
          live = λ h q. ground arith;
          stopped = λ h. v.stopped (sym ds ∙ h);
          outside = v.outside;
        })
    | inr c ↦
        let z : k ≡ 0 = ground arith in
        let w : s.raised < word = v.bound in
        let e : g.wake_epoch ≡ s.g.wake_epoch =
          subst (λ t. g.wake_epoch ≡ (if t then increment s.g.wake_epoch else s.g.wake_epoch)) c
            de in
        simp c (record {
          bound = w;
          epoch = e ∙ v.epoch;
          idle = di ∙ v.idle;
          worker = λ i.
              WorkerInv-keep (is_empty s.g.queue) (is_empty g.queue) s.raised (s.workers i)
                (λ idle old. elim (dq z) [
                  | inl same ↦ same ∙ old
                  | inr none ↦ absurd (omega (arith, idle_counted i idle))
                ])
                (v.worker i);
          present = v.present;
          live = λ h q. elim (dq z) [
            | inl same ↦ omega (arith, v.live h (sym same ∙ q))
            | inr none ↦ omega (arith, none_idle p h none)
          ];
          stopped = λ h. v.stopped (sym ds ∙ h);
          outside = v.outside;
        })
  ]

  pub step_worker :
      {a : Worker} (i : ℕ) (b : Worker) (g : GlobalQueue) (k : ℕ)
      → i < n
      → s.workers i ≡ a
      → g.wake_epoch ≡ s.g.wake_epoch
      → g.stop_flag ≡ s.g.stop_flag
      → (is_empty s.g.queue ≡ true → is_empty g.queue ≡ true)
      → g.idle_threads + one is_idle a ≡ s.g.idle_threads + one is_idle b
      → WorkerInv (is_empty g.queue) s.raised b
      → (s.halted ≡ false → (is_awake b ≡ true) ⊎ (is_waiting b ≡ true))
      → (s.halted ≡ false
          → is_empty g.queue ≡ false
          → s.signals + one is_awake a ≤ k + one is_awake b)
      → (s.g.stop_flag ≡ true → is_waiting b ≡ false)
      → Inv n (record s { g = g; workers = update_at s.workers i b; signals = k })
  step_worker {a} i b g k l h de ds dq di w pr lv st = record {
    bound = v.bound;
    epoch = de ∙ v.epoch;
    idle =
        omega (arith, di, v.idle, number_of-update is_idle n s.workers i b l, ap (one is_idle) h);
    worker =
        WorkerInv-update (is_empty g.queue) s.raised s.workers i b
          (λ j.
            WorkerInv-keep (is_empty s.g.queue) (is_empty g.queue) s.raised (s.workers j)
              (λ idle old. dq old) (v.worker j))
          w;
    present = λ j halted. elim (Bool-cases (i == j)) [
      | inl c ↦ simp c (pr halted)
      | inr c ↦ simp c (v.present j halted)
    ];
    live = λ halted q. elim (Bool-cases (is_empty s.g.queue)) [
      | inl c ↦ absurd (false≢true (sym q ∙ dq c))
      | inr c ↦ omega (
        arith,
        lv halted q,
        v.live halted c,
        number_of-update is_awake n s.workers i b l,
        ap (one is_awake) h,
      )
    ];
    stopped = λ stopped. elim (v.stopped (sym ds ∙ stopped)) [
      | inl c ↦ inl c
      | inr c ↦
          let z : one is_waiting b ≡ 0 = ground (arith, st (sym ds ∙ stopped)) in
          inr (omega (arith, c, z, number_of-update is_waiting n s.workers i b l))
    ];
    outside = λ j o. elim (Bool-cases (i == j)) [
      | inl c ↦ absurd (ground arith)
      | inr c ↦ simp c (v.outside j o)
    ];
  }

pub idle_small : {n : ℕ} {s : State} → n < 2 ^ 32 → Inv n s → s.g.idle_threads < word
idle_small {n} {s} h v = omega (arith, v.idle, number_of-le is_idle n s.workers)

pub worker_at :
    {n : ℕ} {s : State} (i : ℕ) {a : Worker}
    → Inv n s
    → s.workers i ≡ a
    → WorkerInv (is_empty s.g.queue) s.raised a
worker_at {n} {s} i v h = subst (WorkerInv (is_empty s.g.queue) s.raised) h (v.worker i)

-- The predicate of the wait fails only at the epoch that was observed.
pub may_leave-false :
    (e : ℕ) (g : GlobalQueue) → may_leave e g ≡ false → (g.wake_epoch ≡ e) × (g.stop_flag ≡ false)
unfolding may_leave
may_leave-false e g h = (ground arith, ground arith)

pub try_pop_lem :
    (g : GlobalQueue)
    → ((try_pop g).0.wake_epoch ≡ g.wake_epoch)
      × ((try_pop g).0.stop_flag ≡ g.stop_flag)
      × ((try_pop g).0.idle_threads ≡ g.idle_threads)
      × (is_empty g.queue ≡ true → is_empty (try_pop g).0.queue ≡ true)
unfolding try_pop
try_pop_lem g = (ground arith, ground arith, ground arith, λ h. ground arith)

pub push_batch_lem :
    (tasks : List ℕ) (g : GlobalQueue)
    → let (g', k) = push_batch tasks g in
      (g'.idle_threads ≡ g.idle_threads)
      × (g'.stop_flag ≡ g.stop_flag)
      × (g'.wake_epoch ≡ (if ltb 0 k then increment g.wake_epoch else g.wake_epoch))
      × (k ≡ 0 → (is_empty g'.queue ≡ is_empty g.queue) ⊎ (g.idle_threads ≡ 0))
unfolding push_batch
push_batch_lem [] g = (refl, refl, refl, λ z. inl refl)
push_batch_lem (task ∷ tasks) g = (refl, refl, refl, λ z. inr (omega (arith, z)))

pub sleep :
    {n : ℕ} {s : State} (v : Inv n s) (i e : ℕ) (a : Worker)
    → i < n
    → s.workers i ≡ a
    → is_idle a ≡ true
    → is_awake a ≡ true
    → may_leave e s.g ≡ false
    → (e ≤ s.raised) × (e ≡ s.raised → is_empty s.g.queue ≡ true)
    → Inv n (record s { workers = update_at s.workers i (waiting e) })
sleep {n} {s} v i e a l h d w m k =
    let (at_epoch, running) = may_leave-false e s.g m in
    step_worker v i (waiting e) s.g s.signals l h refl refl (λ q. q) (ground (arith, d)) k
      (λ x. inr refl) (λ x q. absurd (false≢true (sym q ∙ k.1 (sym at_epoch ∙ v.epoch))))
      (λ x. absurd (false≢true (sym running ∙ x)))

pub stop-Inv :
    {n : ℕ} {s : State}
    → Inv n s
    → s.g.stop_flag ≡ false
    → suc s.raised < word
    → Inv n (record s { g = (stop s.g).0; signal_all = true; raised = suc s.raised })
unfolding stop
stop-Inv {n} {s} v f b = simp f (record {
  bound = b;
  epoch = omega (arith, v.epoch);
  idle = v.idle;
  worker = λ i. WorkerInv-raise _ _ s.raised (s.workers i) (v.worker i);
  present = v.present;
  live = v.live;
  stopped = λ h. inl refl;
  outside = v.outside;
})
