-- ===== src/Examples/Stealing.antt =====
-- The work-stealing queue: a run without interference, and a thief that takes a handle.
use acnet.Prelude.{◌+◌, ◌≡◌, refl, arith, List, [], ◌∷◌, update_at, count}
use acnet.WorkStealing.{new_queue}
use acnet.WorkStealing.Deque
use acnet.WorkStealing.Deque.{Op}
use acnet.WorkStealing.Sequential.{run, work_stealing_refines}
use acnet.WorkStealing.Threads.{
  State, initial, Step, resting, read_top, seen, ready, Reach, start, next, begin_push, store_slot,
  publish, look, see, load, win_steal,
}
use acnet.WorkStealing.Invariant.{contents}
use acnet.WorkStealing.Linear.{Change, steals, Reach-Change, Reach-Conserved}

abbrev calls : List Op
calls = Op.push 7 ∷ Op.push 8 ∷ Op.push 9 ∷ Op.steal ∷ Op.approx_size ∷ Op.pop ∷ Op.pop ∷ []

work_stealing_refines_example : run 2 new_queue calls ≡ Deque.run 2 [] calls
work_stealing_refines_example =
    work_stealing_refines 2 calls
      (omega arith, (omega arith, (omega arith, (tt, (tt, (tt, (tt, tt))))))) (omega arith)

-- The owner has pushed 7, and a thief has loaded it.
abbrev loaded : State
loaded = record initial {
  q = record { queue = update_at initial.q.queue 0 7; top = 0; bottom = 1 };
  thieves =
      update_at (update_at (update_at initial.thieves 0 (read_top 0)) 0 (seen 0)) 0 (ready 0 7);
  pushed = 7 ∷ [];
}

abbrev stolen : State
stolen = record loaded {
  q = record loaded.q { top = 1 };
  thieves = update_at loaded.thieves 0 resting;
  taken = 7 ∷ [];
}

Reach-loaded : Reach 4 loaded
unfolding new_queue
Reach-loaded =
    next
      (next
        (next (next (next (next start (begin_push 7 refl refl)) (store_slot refl)) (publish refl))
          (look 0 refl))
        (see 0 refl refl))
      (load 0 refl)

stealing : Step 4 loaded stolen
unfolding new_queue
stealing = win_steal 0 refl refl

Reach-Change_example : Change 4 loaded stolen (steals 7)
unfolding stealing
Reach-Change_example = Reach-Change 4 Reach-loaded stealing (omega arith)

Reach-Conserved_example : 1 ≡ 1 + count 7 (contents 4 stolen)
Reach-Conserved_example = Reach-Conserved 4 7 (next Reach-loaded stealing) (omega arith)
