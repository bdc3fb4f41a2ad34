-- ===== src/Scheduler/Lifecycle.antt =====
-- src/core/actor_scheduler.cc: the constructor with its barrier, the life of the worker threads, and the
-- destructor. The threads are created and joined by their numbers; a barrier for `n + 1` threads opens
-- when the last has come, and `pthread_join` returns when the thread has ended.
use native.Mathlib.Decide.{dec_lt}
use acnet.Prelude.{
  ◌≢◌, update_at-all, subst, ℕ, suc, ◌≤◌, ◌<◌, ◌≡◌, refl, Bool, true, false, arith, update_at,
  Bool-cases, inl, inr, ◌==◌, ap, sym, ◌∙◌, false≢true,
}

-- A worker thread: not created; before the barrier; at it; in its loop; ended.
pub data Thread : Type 0 where
  unborn : Thread
  starting : Thread
  at_barrier : Thread
  looping : Thread
  ended : Thread

-- The thread of the constructor, and later of the destructor: in the loop of the constructor; at the
-- barrier; behind it; in the loop of the destructor; with the workers' memory given back.
pub data Owner : Type 0 where
  building : Owner
  waiting : Owner
  built : Owner
  joining : Owner
  freed : Owner

-- `created` counts the workers that have been constructed, each with its thread, and `destroyed` those
-- that have been joined and destroyed. `is_open` tells that the barrier has opened, and `halted` is the
-- negation of `running_`.
pub record State : Type 0 where
  pub owner : Owner
  pub threads : ℕ → Thread
  pub created : ℕ
  pub destroyed : ℕ
  pub is_open : Bool
  pub halted : Bool

abbrev pub initial : State
initial = record {
  owner = building;
  threads = λ i. unborn;
  created = 0;
  destroyed = 0;
  is_open = false;
  halted = false;
}

module _ (n : ℕ) where
  pub data Step (s : State) : State → Type 0 where
    create :
        s.owner ≡ building
        → s.created < n
        → Step s
            (record s { threads = update_at s.threads s.created starting; created = suc s.created })
    arrive_owner : s.owner ≡ building → s.created ≡ n → Step s (record s { owner = waiting })
    arrive :
        (i : ℕ)
        → s.threads i ≡ starting
        → Step s (record s { threads = update_at s.threads i at_barrier })
    open_barrier :
        s.owner ≡ waiting
        → ((i : ℕ) → i < n → s.threads i ≡ at_barrier)
        → Step s (record s { is_open = true })
    pass_owner : s.owner ≡ waiting → s.is_open ≡ true → Step s (record s { owner = built })
    pass :
        (i : ℕ)
        → s.threads i ≡ at_barrier
        → s.is_open ≡ true
        → Step s (record s { threads = update_at s.threads i looping })
    -- `Shutdown` by the manager, and the one of the destructor.
    shut_down : s.owner ≡ built → Step s (record s { halted = true })
    destruct : s.owner ≡ built → Step s (record s { owner = joining; halted = true })
    quit :
        (i : ℕ)
        → s.threads i ≡ looping
        → s.halted ≡ true
        → Step s (record s { threads = update_at s.threads i ended })
    join :
        s.owner ≡ joining
        → s.destroyed < n
        → s.threads s.destroyed ≡ ended
        → Step s (record s { destroyed = suc s.destroyed })
    free : s.owner ≡ joining → s.destroyed ≡ n → Step s (record s { owner = freed })

  pub data Reach : State → Type 0 where
    start : Reach initial
    next : {s t : State} → Reach s → Step s t → Reach t

-- What a thread may be, by how many workers have been created and by the barrier.
abbrev ThreadInv : (n created : ℕ) (is_open : Bool) (i : ℕ) → Thread → Type 0
ThreadInv n created is_open i unborn = created ≤ i
ThreadInv n created is_open i starting = i < created
ThreadInv n created is_open i at_barrier = i < created
ThreadInv n created is_open i looping = (i < created) × (is_open ≡ true)
ThreadInv n created is_open i ended = (i < created) × (is_open ≡ true)

abbrev OwnerInv : (n created destroyed : ℕ) → Owner → Type 0
OwnerInv n created destroyed building = (created ≤ n) × (destroyed ≡ 0)
OwnerInv n created destroyed waiting = (created ≡ n) × (destroyed ≡ 0)
OwnerInv n created destroyed built = (created ≡ n) × (destroyed ≡ 0)
OwnerInv n created destroyed joining = (created ≡ n) × (destroyed ≤ n)
OwnerInv n created destroyed freed = (created ≡ n) × (destroyed ≡ n)

record Inv (n : ℕ) (s : State) : Type 0 where
  owner : OwnerInv n s.created s.destroyed s.owner
  thread : (i : ℕ) → ThreadInv n s.created s.is_open i (s.threads i)
  open_late : s.is_open ≡ true → s.created ≡ n
  joined : (i : ℕ) → i < s.destroyed → s.threads i ≡ ended

module _ {n : ℕ} {s : State} (v : Inv n s) where
  thread_at : (i : ℕ) {a : Thread} → s.threads i ≡ a → ThreadInv n s.created s.is_open i a
  thread_at i h = subst (ThreadInv n s.created s.is_open i) h (v.thread i)

  owner_at : {a : Owner} → s.owner ≡ a → OwnerInv n s.created s.destroyed a
  owner_at h = subst (OwnerInv n s.created s.destroyed) h v.owner

  -- A thread that is not yet joined goes on.
  move-Inv :
      (i : ℕ) {a : Thread} (b : Thread)
      → s.threads i ≡ a
      → a ≢ ended
      → ThreadInv n s.created s.is_open i b
      → Inv n (record s { threads = update_at s.threads i b })
  move-Inv i {a} b h d w = record {
    owner = v.owner;
    thread = update_at-all (ThreadInv n s.created s.is_open) s.threads i b w (λ j e. v.thread j);
    open_late = v.open_late;
    joined = λ j l. elim (Bool-cases (i == j)) [
      | inl e ↦ let k : i ≡ j = ground arith in absurd (d (sym h ∙ ap s.threads k ∙ v.joined j l))
      | inr e ↦ simp e (v.joined j l)
    ];
  }

  ThreadInv-create :
      (i : ℕ) (a : Thread)
      → s.created ≢ i
      → ThreadInv n s.created s.is_open i a
      → ThreadInv n (suc s.created) s.is_open i a
  ThreadInv-create i unborn d w = omega (arith, d)
  ThreadInv-create i starting d w = omega arith
  ThreadInv-create i at_barrier d w = omega arith
  ThreadInv-create i looping d w = (omega (arith, w.0), w.1)
  ThreadInv-create i ended d w = (omega (arith, w.0), w.1)

  ThreadInv-open :
      (i : ℕ) (a : Thread) → ThreadInv n s.created s.is_open i a → ThreadInv n s.created true i a
  ThreadInv-open i unborn w = w
  ThreadInv-open i starting w = w
  ThreadInv-open i at_barrier w = w
  ThreadInv-open i looping w = (w.0, refl)
  ThreadInv-open i ended w = (w.0, refl)

Step-Inv : {n : ℕ} {s t : State} → Step n s t → Inv n s → Inv n t
Step-Inv {n} {s} (create h l) v =
    let o = owner_at v h in
    record {
      owner = subst (OwnerInv n (suc s.created) s.destroyed) (sym h) (omega arith, o.1);
      thread =
          update_at-all (ThreadInv n (suc s.created) s.is_open) s.threads s.created starting
            (omega arith) (λ j d. ThreadInv-create v j (s.threads j) d (v.thread j));
      open_late = λ e. absurd (omega (arith, v.open_late e));
      joined = λ j k. absurd (omega (arith, o.1));
    }
Step-Inv (arrive_owner h l) v = record {
  owner = (l, (owner_at v h).1);
  thread = v.thread;
  open_late = v.open_late;
  joined = v.joined;
}
Step-Inv (arrive i h) v = move-Inv v i at_barrier h (λ e. cc) (thread_at v i h)
Step-Inv {s} (open_barrier h all) v = record {
  owner = v.owner;
  thread = λ i. ThreadInv-open v i (s.threads i) (v.thread i);
  open_late = λ e. (owner_at v h).0;
  joined = v.joined;
}
Step-Inv (pass_owner h e) v = record {
  owner = owner_at v h;
  thread = v.thread;
  open_late = v.open_late;
  joined = v.joined;
}
Step-Inv (pass i h e) v = move-Inv v i looping h (λ e. cc) (thread_at v i h, e)
Step-Inv (shut_down h) v = record {
  owner = v.owner;
  thread = v.thread;
  open_late = v.open_late;
  joined = v.joined;
}
Step-Inv (destruct h) v =
    let o = owner_at v h in
    record {
      owner = (o.0, omega (arith, o.1));
      thread = v.thread;
      open_late = v.open_late;
      joined = v.joined;
    }
Step-Inv (quit i h e) v = move-Inv v i ended h (λ e. cc) (thread_at v i h)
Step-Inv {n} {s} (join h l e) v =
    let o = owner_at v h in
    record {
      owner = subst (OwnerInv n s.created (suc s.destroyed)) (sym h) (o.0, omega arith);
      thread = v.thread;
      open_late = v.open_late;
      joined = λ j k. elim (Bool-cases (s.destroyed == j)) [
        | inl q ↦ ap s.threads (ground arith) ∙ e
        | inr q ↦ v.joined j (ground arith)
      ];
    }
Step-Inv (free h e) v = record {
  owner = ((owner_at v h).0, e);
  thread = v.thread;
  open_late = v.open_late;
  joined = v.joined;
}

Reach-Inv : {n : ℕ} {s : State} → Reach n s → Inv n s
Reach-Inv start = record {
  owner = (omega arith, refl);
  thread = λ i. omega arith;
  open_late = λ e. absurd (false≢true e);
  joined = λ i l. absurd (omega arith);
}
Reach-Inv (next r st) = Step-Inv st (Reach-Inv r)

-- For any number of workers: a worker that is in its loop finds the queues of all workers constructed,
-- its own worker is not destroyed, and the memory of the workers is not given back.
pub looping_lem :
    (n : ℕ) {s : State} (i : ℕ)
    → Reach n s
    → s.threads i ≡ looping
    → (i < n) × (s.created ≡ n) × (s.destroyed ≤ i) × (s.owner ≢ freed)
looping_lem n {s} i r h =
    let v = Reach-Inv r in
    let (l, o) = thread_at v i h in
    let c = v.open_late o in
    let d : s.destroyed ≤ i = elim (dec_lt i s.destroyed) [
      | yes k ↦ let e = v.joined i k in absurd (cc (h, e))
      | no k ↦ omega arith
    ] in
    (omega (arith, l, c), c, d, λ f. omega (arith, (owner_at v f).1, l, c, d))
