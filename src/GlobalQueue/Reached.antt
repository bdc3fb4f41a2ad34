-- ===== src/GlobalQueue/Reached.antt =====
-- Every step keeps the invariant, as long as the epoch has not come round.
use acnet.Prelude.{
  ℕ, ◌-◌, ◌^◌, ◌≤◌, ◌<◌, refl, arith, word, inl, inr, ap, sym, ◌∙◌, number_of-pos, false≢true,
  number_of-same, number_of-none, number_of-le,
}
use acnet.GlobalQueue.{
  new_global_queue, push, push_batch, try_pop, notify_one_idle, prepare_park, cancel_park,
  leave_park, stop,
}
use acnet.GlobalQueue.Workers.{
  working, searching, resuming, returns, searches, takes_elsewhere, prepared, cancelling, parking,
  woken, gone, is_waiting, wake, State, Step, pushes, pushes_batch, notifies, signal, signal_none,
  spurious, halt, stops, signals_all, takes, prepares, takes_again, finds_elsewhere, cancels,
  finds_none, waits, waits_again, leaves, leaves_woken, quits, Reach, start, next,
}
use acnet.GlobalQueue.Invariant.{is_idle, is_awake, Inv}
use acnet.GlobalQueue.Waking.{wake_idle, wake_not_waiting, wake_awake, WorkerInv-wake}
use acnet.GlobalQueue.Keeping.{
  idle_counted, issue-Inv, step_worker, idle_small, worker_at, try_pop_lem, push_batch_lem, sleep,
  stop-Inv,
}

module _ (n : ℕ) (some_worker : 0 < n) (few : n < 2 ^ 32) where
  Step-Inv : {s t : State} → Step n s t → t.raised < word → Inv n s → Inv n t
  unfolding push push_batch notify_one_idle prepare_park cancel_park leave_park stop
  Step-Inv {s} (pushes task) b v =
      issue-Inv v (push task s.g).0 (push task s.g).1 some_worker b refl refl (ground arith)
        (λ z. inr (ground arith))
  Step-Inv {s} (pushes_batch tasks) b v =
      issue-Inv v (push_batch tasks s.g).0 (push_batch tasks s.g).1 some_worker b
        (push_batch_lem tasks s.g).0 (push_batch_lem tasks s.g).1 (push_batch_lem tasks s.g).2
        (push_batch_lem tasks s.g).3
  Step-Inv {s} notifies b v =
      issue-Inv v (notify_one_idle s.g).0 (notify_one_idle s.g).1 some_worker b refl refl
        (ground arith) (λ z. inl refl)
  Step-Inv {s} (signal i {e} l h k) b v =
      step_worker v i (woken e) s.g (s.signals - 1) l h refl refl (λ q. q) refl (worker_at i v h)
        (λ x. inl refl) (λ x q. omega arith) (λ x. refl)
  Step-Inv {s} (signal_none w k) b v = record {
    bound = v.bound;
    epoch = v.epoch;
    idle = v.idle;
    worker = v.worker;
    present = v.present;
    live = λ h q. elim (v.present 0 h) [
      | inl a ↦ omega (arith, number_of-pos is_awake n s.workers 0 some_worker a)
      | inr a ↦ absurd (false≢true (sym (w 0) ∙ a))
    ];
    stopped = v.stopped;
    outside = v.outside;
  }
  Step-Inv {s} (spurious i {e} l h) b v =
      step_worker v i (woken e) s.g s.signals l h refl refl (λ q. q) refl (worker_at i v h)
        (λ x. inl refl) (λ x q. omega arith) (λ x. refl)
  Step-Inv {s} halt b v = record {
    bound = v.bound;
    epoch = v.epoch;
    idle = v.idle;
    worker = v.worker;
    present = λ i h. absurd (ground arith);
    live = λ h q. absurd (ground arith);
    stopped = v.stopped;
    outside = v.outside;
  }
  Step-Inv {s} (stops h f) b v = stop-Inv v f b
  Step-Inv {s} (signals_all h) b v = record {
    bound = v.bound;
    epoch = v.epoch;
    idle =
        v.idle
        ∙ sym (
            number_of-same is_idle n (λ i. wake (s.workers i)) s.workers
              (λ i. wake_idle (s.workers i)));
    worker = λ i. WorkerInv-wake _ s.raised (s.workers i) (v.worker i);
    present = λ i h. inl (wake_awake (s.workers i) (v.present i h));
    live = λ h q. omega (
      arith,
      number_of-pos is_awake n (λ i. wake (s.workers i)) 0 some_worker
          (wake_awake (s.workers 0) (v.present 0 h)),
    );
    stopped = λ h. inr (
        number_of-none is_waiting n (λ i. wake (s.workers i))
          (λ i. wake_not_waiting (s.workers i)));
    outside = λ i h. ap wake (v.outside i h);
  }
  Step-Inv {s} (searches i l h r) b v =
      step_worker v i searching s.g s.signals l h refl refl (λ q. q) refl tt (λ x. inl refl)
        (λ x q. omega arith) (λ x. refl)
  Step-Inv {s} (takes i l h) b v =
      let (e, f, d, k) = try_pop_lem s.g in
      step_worker v i resuming (try_pop s.g).0 s.signals l h e f k (omega (arith, d)) tt
        (λ x. inl refl) (λ x q. omega arith) (λ x. refl)
  Step-Inv {s} (takes_elsewhere i l h) b v =
      step_worker v i resuming s.g s.signals l h refl refl (λ q. q) refl tt (λ x. inl refl)
        (λ x q. omega arith) (λ x. refl)
  Step-Inv {s} (returns i l h) b v =
      step_worker v i working s.g s.signals l h refl refl (λ q. q) refl tt (λ x. inl refl)
        (λ x q. omega arith) (λ x. refl)
  Step-Inv {s} (prepares i l h) b v =
      step_worker v i (prepared s.g.wake_epoch) (prepare_park s.g).0 s.signals l h refl refl
        (λ q. q) (omega (arith, v.idle, number_of-le is_idle n s.workers)) (omega (arith, v.epoch))
        (λ x. inl refl) (λ x q. omega arith) (λ x. refl)
  Step-Inv {s} (takes_again i l h q) b v =
      let (e, f, d, k) = try_pop_lem s.g in
      step_worker v i cancelling (try_pop s.g).0 s.signals l h e f k (omega (arith, d)) tt
        (λ x. inl refl) (λ x q. omega arith) (λ x. refl)
  Step-Inv {s} (finds_elsewhere i l h) b v =
      step_worker v i cancelling s.g s.signals l h refl refl (λ q. q) refl tt (λ x. inl refl)
        (λ x q. omega arith) (λ x. refl)
  Step-Inv {s} (cancels i l h) b v =
      step_worker v i resuming (cancel_park s.g) s.signals l h refl refl (λ q. q)
        (omega (arith, idle_counted v i (ap is_idle h), idle_small few v)) tt (λ x. inl refl)
        (λ x q. omega arith) (λ x. refl)
  Step-Inv {s} (finds_none i {e} l h q) b v =
      step_worker v i (parking e) s.g s.signals l h refl refl (λ q. q) refl
        (worker_at i v h, λ x. q) (λ x. inl refl) (λ x q. omega arith) (λ x. refl)
  Step-Inv {s} (waits i {e} l h m) b v = sleep v i e (parking e) l h refl refl m (worker_at i v h)
  Step-Inv {s} (waits_again i {e} l h m) b v =
      sleep v i e (woken e) l h refl refl m (worker_at i v h)
  Step-Inv {s} (leaves i l h m) b v =
      step_worker v i working (leave_park s.g) s.signals l h refl refl (λ q. q)
        (omega (arith, idle_counted v i (ap is_idle h), idle_small few v)) tt (λ x. inl refl)
        (λ x q. omega arith) (λ x. refl)
  Step-Inv {s} (leaves_woken i l h m) b v =
      step_worker v i working (leave_park s.g) s.signals l h refl refl (λ q. q)
        (omega (arith, idle_counted v i (ap is_idle h), idle_small few v)) tt (λ x. inl refl)
        (λ x q. omega arith) (λ x. refl)
  Step-Inv {s} (quits i l h k) b v =
      step_worker v i gone s.g s.signals l h refl refl (λ q. q) refl tt
        (λ x. absurd (false≢true (sym x ∙ k))) (λ x. absurd (false≢true (sym x ∙ k))) (λ x. refl)

  raised_grows : {s t : State} → Step n s t → s.raised ≤ t.raised
  raised_grows (pushes task) = ground arith
  raised_grows (pushes_batch tasks) = ground arith
  raised_grows notifies = ground arith
  raised_grows (stops h f) = omega arith
  raised_grows (signal i l h k) = omega arith
  raised_grows (signal_none w k) = omega arith
  raised_grows (spurious i l h) = omega arith
  raised_grows halt = omega arith
  raised_grows (signals_all h) = omega arith
  raised_grows (searches i l h r) = omega arith
  raised_grows (takes i l h) = omega arith
  raised_grows (takes_elsewhere i l h) = omega arith
  raised_grows (returns i l h) = omega arith
  raised_grows (prepares i l h) = omega arith
  raised_grows (takes_again i l h q) = omega arith
  raised_grows (finds_elsewhere i l h) = omega arith
  raised_grows (cancels i l h) = omega arith
  raised_grows (finds_none i l h q) = omega arith
  raised_grows (waits i l h m) = omega arith
  raised_grows (waits_again i l h m) = omega arith
  raised_grows (leaves i l h m) = omega arith
  raised_grows (leaves_woken i l h m) = omega arith
  raised_grows (quits i l h k) = omega arith

  pub Reach-Inv : {s : State} → Reach n s → s.raised < word → Inv n s
  unfolding new_global_queue
  Reach-Inv start b = record {
    bound = b;
    epoch = refl;
    idle = sym (number_of-none is_idle n (λ i. working) (λ i. refl));
    worker = λ i. tt;
    present = λ i h. inl refl;
    live = λ h q. absurd (ground arith);
    stopped = λ h. absurd (ground arith);
    outside = λ i h. refl;
  }
  Reach-Inv (next r st) b = Step-Inv st b (Reach-Inv r (omega (arith, raised_grows st, b)))
