-- ===== src/Examples/Lifetimes.antt =====
-- Two worker threads, started and joined. When the first has been joined, its worker is destroyed while
-- the other thread is still in its loop, in which it may look into the queue of the first.
use acnet.Prelude.{ℕ, zero, suc, ◌≤◌, ◌<◌, ◌≡◌, ◌≢◌, refl, true, arith, update_at}
use acnet.Scheduler.Lifecycle.{
  Thread, starting, at_barrier, looping, ended, State, initial, waiting, joining, freed, Reach,
  start, next, create, arrive_owner, arrive, open_barrier, pass_owner, pass, destruct, quit, join,
  looping_lem,
}

abbrev created : ℕ → Thread
created = update_at (update_at initial.threads 0 starting) 1 starting

abbrev arrived : ℕ → Thread
arrived = update_at (update_at created 0 at_barrier) 1 at_barrier

all_arrived : (i : ℕ) → i < 2 → arrived i ≡ at_barrier
all_arrived zero l = refl
all_arrived (suc zero) l = refl
all_arrived (suc (suc i)) l = absurd (omega arith)

abbrev half_joined : State
half_joined = record {
  owner = joining;
  threads = update_at (update_at (update_at arrived 0 looping) 1 looping) 0 ended;
  created = 2;
  destroyed = 1;
  is_open = true;
  halted = true;
}

Reach-opened :
    Reach 2 (record initial { owner = waiting; threads = arrived; created = 2; is_open = true })
Reach-opened =
    next
      (next
        (next
          (next (next (next start (create refl (omega arith))) (create refl (omega arith)))
            (arrive_owner refl refl))
          (arrive 0 refl))
        (arrive 1 refl))
      (open_barrier refl all_arrived)

Reach-half_joined : Reach 2 half_joined
Reach-half_joined =
    next
      (next
        (next
          (next (next (next Reach-opened (pass 0 refl refl)) (pass 1 refl refl))
            (pass_owner refl refl))
          (destruct refl))
        (quit 0 refl refl))
      (join refl (omega arith) refl)

looping_lem_example :
    (1 < 2) × (half_joined.created ≡ 2) × (half_joined.destroyed ≤ 1) × (half_joined.owner ≢ freed)
looping_lem_example = looping_lem 2 1 Reach-half_joined refl
