-- ===== src/Task/Frames.antt =====
-- include/task.h: the frame of a task's body, which `~Task` destroys, and the resumption of its caller.
use acnet.Prelude.{ℕ, ◌≤◌, ◌≡◌, ◌≢◌, Bool, false, arith, inl, inr, ◌⊎◌}
use acnet.Task.Awaiting.{
  Caller, created, calling, checked, suspended, going_on, dropped, left, Callee, over, State, Reach,
  Place, Reach-PlaceInv,
}

-- What has become of the body's frame, by the caller's place.
Place-frame :
    (a : Caller) (e : Callee) (c m y : Bool) (k f : ℕ)
    → Place a e c m y k f
    → y ≡ false
    → ((f ≡ 0) × (a ≢ left)) ⊎ ((f ≡ 1) × (e ≡ over) × (k ≡ 1))
Place-frame created e c m y k f v d = inl (v.2, λ q. cc)
Place-frame calling e c m y k f v d = inl (v.2, λ q. cc)
Place-frame checked e c m y k f v d = inl (v.2, λ q. cc)
Place-frame suspended e c m y k f v d = inl (v.2, λ q. cc)
Place-frame going_on e c m y k f v d = inl (v.3, λ q. cc)
Place-frame dropped e c m y k f v d = inr (v.3, v.2 d, v.0)
Place-frame left e c m y k f v d = inr (v.3, v.2 d, v.0)

-- In every interleaving in which `await_ready` did not find the body at its end before the final
-- awaiter had read the continuation: the body's frame has not been destroyed, and its caller has not
-- come to its own end, or the frame has been destroyed exactly once, the body is over, so that nothing
-- reads the frame any more, and the caller has gone on exactly once.
pub frame-kept :
    {s : State}
    → Reach s
    → s.early ≡ false
    → ((s.frees ≡ 0) × (s.caller ≢ left))
      ⊎ ((s.frees ≡ 1) × (s.callee ≡ over) × (s.resumptions ≡ 1))
frame-kept {s} r d =
    Place-frame s.caller s.callee s.continuation s.missed s.early s.resumptions s.frees
      (Reach-PlaceInv r) d

Place-most : (a : Caller) (e : Callee) (c m y : Bool) (k f : ℕ) → Place a e c m y k f → k ≤ 1
Place-most created e c m y k f v = omega (arith, v.1)
Place-most calling e c m y k f v = omega (arith, v.1)
Place-most checked e c m y k f v = omega (arith, v.1)
Place-most suspended e c m y k f v = omega (arith, v.1)
Place-most going_on e c m y k f v = omega (arith, v.0)
Place-most dropped e c m y k f v = omega (arith, v.0)
Place-most left e c m y k f v = omega (arith, v.0)

-- In every interleaving the caller goes on at most once.
pub resumptions-le : {s : State} → Reach s → s.resumptions ≤ 1
resumptions-le {s} r =
    Place-most s.caller s.callee s.continuation s.missed s.early s.resumptions s.frees
      (Reach-PlaceInv r)
