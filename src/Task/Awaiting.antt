-- ===== src/Task/Awaiting.antt =====
-- include/task.h: a caller that awaits a task on one thread while the task's body comes to its end on
-- another, cut at `done`, at the store of `continuation_` and at its load. A body that has been
-- suspended and put into a run queue is resumed by any worker, so the two may be on different threads.
-- The caller is a `LaunchTask`: a worker resumes it once, it calls the body, which starts at once, the
-- `Task` destroys the body's frame behind `await_resume`, and at its end its own frame is destroyed.
use acnet.Prelude.{
  ℕ, suc, ◌≡◌, refl, Bool, true, false, ap, sym, ◌∙◌, subst, false≢true, inl, inr, ◌⊎◌,
}

-- The caller: suspended by `initial_suspend`; before `await_ready`; behind it, not ready; behind
-- `await_suspend`; behind `await_resume`; behind `~Task`; and behind its own end.
pub data Caller : Type 0 where
  created : Caller
  calling : Caller
  checked : Caller
  suspended : Caller
  going_on : Caller
  dropped : Caller
  left : Caller

-- The body: not yet called; before its end; at the final suspension, `continuation_` not yet read; and
-- behind that.
pub data Callee : Type 0 where
  not_called : Callee
  running : Callee
  at_end : Callee
  over : Callee

-- `resumptions` counts how often the caller has gone on, and `frees` how often the body's frame has
-- been destroyed. `missed` tells that the end of the body found no continuation while the caller was
-- between `await_ready` and `await_suspend`; `early` tells that `await_ready` found the body at its end
-- before the final awaiter had read the continuation.
pub record State : Type 0 where
  pub caller : Caller
  pub callee : Callee
  pub continuation : Bool
  pub resumptions : ℕ
  pub frees : ℕ
  pub missed : Bool
  pub early : Bool

abbrev pub initial : State
initial = record {
  caller = created;
  callee = not_called;
  continuation = false;
  resumptions = 0;
  frees = 0;
  missed = false;
  early = false;
}

abbrev pub between : Caller → Bool
between checked = true
between _ = false

-- The caller is behind `await_resume`.
abbrev pub has_gone_on : Caller → Bool
has_gone_on going_on = true
has_gone_on dropped = true
has_gone_on left = true
has_gone_on _ = false

pub data Step (s : State) : State → Type 0 where
  launch :
      s.caller ≡ created
      → s.callee ≡ not_called
      → Step s (record s { caller = calling; callee = running })
  ready_at_end :
      s.caller ≡ calling
      → s.callee ≡ at_end
      → Step s (record s { caller = going_on; resumptions = suc s.resumptions; early = true })
  ready_over :
      s.caller ≡ calling
      → s.callee ≡ over
      → Step s (record s { caller = going_on; resumptions = suc s.resumptions })
  not_ready : s.caller ≡ calling → s.callee ≡ running → Step s (record s { caller = checked })
  store : s.caller ≡ checked → Step s (record s { caller = suspended; continuation = true })
  end_body : s.callee ≡ running → Step s (record s { callee = at_end })
  transfer :
      s.callee ≡ at_end
      → s.continuation ≡ true
      → Step s (record s { caller = going_on; callee = over; resumptions = suc s.resumptions })
  no_one :
      s.callee ≡ at_end
      → s.continuation ≡ false
      → Step s (record s { callee = over; missed = between s.caller })
  drop : s.caller ≡ going_on → Step s (record s { caller = dropped; frees = suc s.frees })
  leave : s.caller ≡ dropped → Step s (record s { caller = left })

pub data Reach : State → Type 0 where
  start : Reach initial
  next : {s t : State} → Reach s → Step s t → Reach t

-- Behind `await_resume`, the body's frame destroyed `n` times.
abbrev pub Past : Callee → Bool → Bool → ℕ → (k f : ℕ) → Type 0
Past e c y n k f = (k ≡ 1) × (c ≡ true → e ≡ over) × (y ≡ false → e ≡ over) × (f ≡ n)

-- What holds of the other fields, by the caller's place.
abbrev pub Place : Caller → Callee → (c m y : Bool) → (k f : ℕ) → Type 0
Place created e c m y k f = (c ≡ false) × (k ≡ 0) × (f ≡ 0) × (e ≡ not_called)
Place calling e c m y k f = (c ≡ false) × (k ≡ 0) × (f ≡ 0)
Place checked e c m y k f = (c ≡ false) × (k ≡ 0) × (f ≡ 0) × (e ≡ over → m ≡ true)
Place suspended e c m y k f = (c ≡ true) × (k ≡ 0) × (f ≡ 0) × (e ≡ over → m ≡ true)
Place going_on e c m y k f = Past e c y 0 k f
Place dropped e c m y k f = Past e c y 1 k f
Place left e c m y k f = Past e c y 1 k f

abbrev pub PlaceInv : State → Type 0
PlaceInv s = Place s.caller s.callee s.continuation s.missed s.early s.resumptions s.frees

end_body-Past : (c y : Bool) (n k f : ℕ) → Past running c y n k f → Past at_end c y n k f
end_body-Past c y n k f v =
    (v.0, λ e. let q = v.1 e in absurd (cc), λ e. let q = v.2 e in absurd (cc), v.3)

end_body-Place :
    (a : Caller) (c m y : Bool) (k f : ℕ) → Place a running c m y k f → Place a at_end c m y k f
end_body-Place created c m y k f v = absurd (let q = v.3 in cc)
end_body-Place calling c m y k f v = v
end_body-Place checked c m y k f v = (v.0, v.1, v.2, λ e. absurd (cc))
end_body-Place suspended c m y k f v = (v.0, v.1, v.2, λ e. absurd (cc))
end_body-Place going_on c m y k f v = end_body-Past c y 0 k f v
end_body-Place dropped c m y k f v = end_body-Past c y 1 k f v
end_body-Place left c m y k f v = end_body-Past c y 1 k f v

no_one-Place :
    (a : Caller) (c m y : Bool) (k f : ℕ)
    → c ≡ false
    → Place a at_end c m y k f
    → Place a over c (between a) y k f
no_one-Place created c m y k f n v = absurd (let q = v.3 in cc)
no_one-Place calling c m y k f n v = v
no_one-Place checked c m y k f n v = (v.0, v.1, v.2, λ e. refl)
no_one-Place suspended c m y k f n v = absurd (false≢true (sym n ∙ v.0))
no_one-Place going_on c m y k f n v = (v.0, λ e. refl, λ e. refl, v.3)
no_one-Place dropped c m y k f n v = (v.0, λ e. refl, λ e. refl, v.3)
no_one-Place left c m y k f n v = (v.0, λ e. refl, λ e. refl, v.3)

transfer-Place :
    (a : Caller) (c m y : Bool) (k f : ℕ)
    → c ≡ true
    → Place a at_end c m y k f
    → Place going_on over c m y (suc k) f
transfer-Place created c m y k f h v = absurd (false≢true (sym v.0 ∙ h))
transfer-Place calling c m y k f h v = absurd (false≢true (sym v.0 ∙ h))
transfer-Place checked c m y k f h v = absurd (false≢true (sym v.0 ∙ h))
transfer-Place suspended c m y k f h v = (ap suc v.1, λ e. refl, λ e. refl, v.2)
transfer-Place going_on c m y k f h v = let q = v.1 h in absurd (cc)
transfer-Place dropped c m y k f h v = let q = v.1 h in absurd (cc)
transfer-Place left c m y k f h v = let q = v.1 h in absurd (cc)

-- What holds at the caller's place, where this is known.
PlaceInv-caller :
    (s : State) {a : Caller}
    → PlaceInv s
    → s.caller ≡ a
    → Place a s.callee s.continuation s.missed s.early s.resumptions s.frees
PlaceInv-caller s v h =
    subst (λ a. Place a s.callee s.continuation s.missed s.early s.resumptions s.frees) h v

-- And what holds where the body's place is known.
PlaceInv-callee :
    (s : State) {e : Callee}
    → PlaceInv s
    → s.callee ≡ e
    → Place s.caller e s.continuation s.missed s.early s.resumptions s.frees
PlaceInv-callee s v h =
    subst (λ e. Place s.caller e s.continuation s.missed s.early s.resumptions s.frees) h v

Step-PlaceInv : {s t : State} → Step s t → PlaceInv s → PlaceInv t
Step-PlaceInv {s} (launch h e) v = let w = PlaceInv-caller s v h in (w.0, w.1, w.2)
Step-PlaceInv {s} (ready_at_end h k) v =
    let w = PlaceInv-caller s v h in
    (ap suc w.1, λ e. absurd (false≢true (sym w.0 ∙ e)), λ e. absurd (false≢true (sym e)), w.2)
Step-PlaceInv {s} (ready_over h k) v =
    let w = PlaceInv-caller s v h in
    (ap suc w.1, λ e. absurd (false≢true (sym w.0 ∙ e)), λ e. k, w.2)
Step-PlaceInv {s} (not_ready h k) v =
    let w = PlaceInv-caller s v h in (w.0, w.1, w.2, λ e. absurd (cc))
Step-PlaceInv {s} (store h) v = let w = PlaceInv-caller s v h in (refl, w.1, w.2, w.3)
Step-PlaceInv {s} (end_body h) v =
    end_body-Place s.caller s.continuation s.missed s.early s.resumptions s.frees
      (PlaceInv-callee s v h)
Step-PlaceInv {s} (transfer h k) v =
    transfer-Place s.caller s.continuation s.missed s.early s.resumptions s.frees k
      (PlaceInv-callee s v h)
Step-PlaceInv {s} (no_one h k) v =
    no_one-Place s.caller s.continuation s.missed s.early s.resumptions s.frees k
      (PlaceInv-callee s v h)
Step-PlaceInv {s} (drop h) v = let w = PlaceInv-caller s v h in (w.0, w.1, w.2, ap suc w.3)
Step-PlaceInv {s} (leave h) v = PlaceInv-caller s v h

pub Reach-PlaceInv : {s : State} → Reach s → PlaceInv s
Reach-PlaceInv start = (refl, refl, refl, refl)
Reach-PlaceInv (next {s} r st) = Step-PlaceInv st (Reach-PlaceInv r)

Place-resumed :
    (a : Caller) (c m y : Bool) (k f : ℕ)
    → Place a over c m y k f
    → m ≡ false
    → ((a ≡ calling) × (k ≡ 0)) ⊎ ((has_gone_on a ≡ true) × (k ≡ 1))
Place-resumed created c m y k f v d = absurd (let q = v.3 in cc)
Place-resumed calling c m y k f v d = inl (refl, v.1)
Place-resumed checked c m y k f v d = absurd (false≢true (sym d ∙ v.3 refl))
Place-resumed suspended c m y k f v d = absurd (false≢true (sym d ∙ v.3 refl))
Place-resumed going_on c m y k f v d = inr (refl, v.0)
Place-resumed dropped c m y k f v d = inr (refl, v.0)
Place-resumed left c m y k f v d = inr (refl, v.0)

-- In every interleaving, once the body is over and its end did not fall between the caller's
-- `await_ready` and `await_suspend`: the caller has gone on exactly once, or it has not asked
-- `await_ready` so far.
pub over-resumed :
    {s : State}
    → Reach s
    → s.callee ≡ over
    → s.missed ≡ false
    → ((s.caller ≡ calling) × (s.resumptions ≡ 0))
      ⊎ ((has_gone_on s.caller ≡ true) × (s.resumptions ≡ 1))
over-resumed {s} r e d =
    Place-resumed s.caller s.continuation s.missed s.early s.resumptions s.frees
      (PlaceInv-callee s (Reach-PlaceInv r) e) d

-- A caller that is suspended when the body is over stays so for ever: no step is left to either.
pub suspended-stays : {s t : State} → s.caller ≡ suspended → s.callee ≡ over → ¬ Step s t
suspended-stays h e (launch a k) = cc
suspended-stays h e (ready_at_end a k) = cc
suspended-stays h e (ready_over a k) = cc
suspended-stays h e (not_ready a k) = cc
suspended-stays h e (store a) = cc
suspended-stays h e (end_body a) = cc
suspended-stays h e (transfer a k) = cc
suspended-stays h e (no_one a k) = cc
suspended-stays h e (drop a) = cc
suspended-stays h e (leave a) = cc
