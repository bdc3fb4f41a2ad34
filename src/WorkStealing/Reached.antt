-- ===== src/WorkStealing/Reached.antt =====
-- The invariant holds in every state that is reached with fewer than 2 ^ 63 pushes.
use acnet.Prelude.{
  ℕ, zero, suc, ◌+◌, ◌-◌, ◌^◌, ◌%◌, ◌≤◌, ◌<◌, ◌≡◌, ◌==◌, refl, leb, false, arith, word, increment,
  decrement, subtract, signed_leb, length, ap, sym, ◌∙◌, ==-to_eq, signed_leb_small,
}
use acnet.WorkStealing.{new_queue}
use acnet.WorkStealing.Threads.{
  State, idle, pushing, popping, racing, restoring, resting, read_top, seen, ready, Step,
  begin_push, store_slot, publish, begin_pop, pop_empty, pop_inner, pop_last, win, lose, restore,
  look, see, see_empty, load, win_steal, abort, Reach, start, next,
}
use acnet.WorkStealing.Invariant.{end, Inv}
use acnet.WorkStealing.Keeping.{
  own_at, end_at, end_bound, bottom_at, turn, step_thief, thief_at, store_slot-Inv, publish-Inv,
  pop_inner-Inv, win-Inv, win_steal-Inv, popped, see_lt,
}

room : (N b t : ℕ) → t ≤ b → b < 2 ^ 63 → leb N (subtract b t) ≡ false → b < t + N
room N b t h k r =
    let d : subtract b t ≡ b - t = omega arith in
    let f : leb N (b - t) ≡ false = ap (leb N) (sym d) ∙ r in ground arith

-- A lowered `bottom_` below `top_` was at `top_`.
popped_none :
    (t b e : ℕ) → t ≤ e → e < 2 ^ 63 → b < word → increment b ≡ e → signed_leb t b ≡ false → e ≡ t
popped_none t b zero h k w i r = omega arith
popped_none t b (suc e) h k w i r =
    let d : b ≡ e = omega arith in
    let f : leb t b ≡ false = sym (signed_leb_small t b (omega arith) (omega arith)) ∙ r in
    ground arith

lost : (t b : ℕ) → b < 2 ^ 63 → b ≤ t → t ≤ increment b → (t == b) ≡ false → increment b ≡ t
lost t b h k l n = let i : increment b ≡ suc b = omega arith in ground arith

module _ (N : ℕ) where
  Step-Inv : {s t : State} → Step N s t → length t.pushed < 2 ^ 63 → Inv N s → Inv N t
  Step-Inv {s} (begin_push x o r) b v = turn v (pushing x) s.q.bottom o refl (
      room N s.q.bottom s.q.top (omega (arith, v.ordered, end_at v o))
        (omega (arith, end_at v o, end_bound v)) r)
  Step-Inv (store_slot o) b v = store_slot-Inv v o
  Step-Inv (publish o) b v = publish-Inv v o (omega (arith, b))
  Step-Inv {s} (begin_pop o) b v =
      turn v popping (decrement s.q.bottom) o (omega (arith, end_at v o, end_bound v)) (omega arith)
  Step-Inv {s} (pop_empty o r) b v = turn v restoring s.q.bottom o refl (
    own_at v o,
    sym (end_at v o)
        ∙ popped_none s.q.top s.q.bottom (end s) v.ordered (end_bound v) (own_at v o)
            (sym (end_at v o)) r,
  )
  Step-Inv {s} (pop_inner o r n) b v = pop_inner-Inv (s.q.queue (s.q.bottom % N)) v o r n
  Step-Inv {s} (pop_last o r n) b v = turn v racing s.q.bottom o refl (
    (popped s.q.top s.q.bottom (end s) (omega (arith, v.ordered, end_bound v)) (end_bound v)
        (own_at v o) (sym (end_at v o)) r).0,
    omega (arith, ==-to_eq s.q.top s.q.bottom n),
  )
  Step-Inv {s} (win o n) b v = win-Inv (s.q.queue (s.q.bottom % N)) v o n
  Step-Inv {s} (lose o n) b v = turn v restoring s.q.bottom o refl (
    omega (arith, (own_at v o).0),
    lost s.q.top s.q.bottom (own_at v o).0 (own_at v o).1 (omega (arith, v.ordered, end_at v o)) n,
  )
  Step-Inv {s} (restore o) b v = turn v idle (increment s.q.bottom) o refl tt
  Step-Inv {s} (look i h) b v = step_thief i (read_top s.q.top) v (omega arith)
  Step-Inv {s} (see i {tp} h r) b v = step_thief i (seen tp) v (
    thief_at i v h,
    λ same.
        see_lt tp s.q.bottom (end s) (omega (arith, thief_at i v h, v.ordered, end_bound v))
          (end_bound v) (bottom_at v) r,
  )
  Step-Inv (see_empty i h r) b v = step_thief i resting v tt
  Step-Inv {s} (load i {tp} h) b v =
      step_thief i (ready tp (s.q.queue (tp % N))) v
        ((thief_at i v h).0, (thief_at i v h).1, λ same. refl)
  Step-Inv (win_steal i h r) b v = win_steal-Inv i v h r
  Step-Inv (abort i h r) b v = step_thief i resting v tt

  pub grows : {s t : State} → Step N s t → length t.pushed < 2 ^ 63 → length s.pushed < 2 ^ 63
  grows (publish o) b = omega (arith, b)
  grows (begin_push x o r) b = b
  grows (store_slot o) b = b
  grows (begin_pop o) b = b
  grows (pop_empty o r) b = b
  grows (pop_inner o r n) b = b
  grows (pop_last o r n) b = b
  grows (win o n) b = b
  grows (lose o n) b = b
  grows (restore o) b = b
  grows (look i h) b = b
  grows (see i h r) b = b
  grows (see_empty i h r) b = b
  grows (load i h) b = b
  grows (win_steal i h r) b = b
  grows (abort i h r) b = b

  pub Reach-Inv : {s : State} → Reach N s → length s.pushed < 2 ^ 63 → Inv N s
  unfolding new_queue
  Reach-Inv start b = record {
    bound = b;
    ordered = omega arith;
    fits = omega arith;
    few = omega arith;
    own = tt;
    thief = λ i. tt;
  }
  Reach-Inv (next r st) b = Step-Inv st b (Reach-Inv r (grows st b))
