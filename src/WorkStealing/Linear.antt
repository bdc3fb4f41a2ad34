-- ===== src/WorkStealing/Linear.antt =====
-- The accesses at which a handle enters and leaves the queue, and what follows for whole runs.
use acnet.Prelude.{
  ℕ, suc, ◌+◌, ◌-◌, ◌^◌, ◌%◌, ◌≤◌, ◌<◌, ◌≡◌, ◌==◌, refl, true, [], ◌∷◌, ◌++◌, arith, increment,
  signed_leb, length, ap, sym, ◌∙◌, update_at, window, window-snoc, window-update_at, count,
  count-append, ==-to_eq,
}
use acnet.WorkStealing.{new_queue}
use acnet.WorkStealing.Threads.{
  State, pushing, stored, popping, racing, ready, Step, begin_push, store_slot, publish, begin_pop,
  pop_empty, pop_inner, pop_last, win, lose, restore, look, see, see_empty, load, win_steal, abort,
  Reach, start, next,
}
use acnet.WorkStealing.Invariant.{end, contents, Inv}
use acnet.WorkStealing.Reached.{grows, Reach-Inv}
use acnet.WorkStealing.Keeping.{own_at, end_at, end_bound, thief_at, popped}

-- What an access is for its caller: the point at which a push inserts its handle, at which a pop of the
-- owner takes one, and at which a steal takes one; or none of these.
pub data Act : Type 0 where
  passes : Act
  inserts : ℕ → Act
  pops : ℕ → Act
  steals : ℕ → Act

abbrev pub act : {N : ℕ} {s t : State} → Step N s t → Act
act (publish {x} o) = inserts x
act {N} {s} (pop_inner o r n) = pops (s.q.queue (s.q.bottom % N))
act {N} {s} (win o n) = pops (s.q.queue (s.q.bottom % N))
act (win_steal i {ptr} h n) = steals ptr
act _ = passes

-- What each does to the handles in the queue: nothing; a push adds its handle at the bottom; a pop
-- hands out the one at the bottom, the youngest; a steal the one at the top, the oldest.
pub data Change (N : ℕ) (s t : State) : Act → Type 0 where
  silent :
      contents N t ≡ contents N s → t.pushed ≡ s.pushed → t.taken ≡ s.taken → Change N s t passes
  adds :
      (x : ℕ)
      → contents N t ≡ contents N s ++ x ∷ []
      → t.pushed ≡ x ∷ s.pushed
      → t.taken ≡ s.taken
      → Change N s t (inserts x)
  takes_last :
      (x : ℕ)
      → contents N s ≡ contents N t ++ x ∷ []
      → t.pushed ≡ s.pushed
      → t.taken ≡ x ∷ s.taken
      → Change N s t (pops x)
  takes_first :
      (x : ℕ)
      → contents N s ≡ x ∷ contents N t
      → t.pushed ≡ s.pushed
      → t.taken ≡ x ∷ s.taken
      → Change N s t (steals x)

module _ {N : ℕ} {s : State} (v : Inv N s) where
  -- The same ring, and the same limit.
  contents_keep : (e : ℕ) → e ≡ end s → window s.q.queue N s.q.top (e - s.q.top) ≡ contents N s
  contents_keep e h = ap (λ k. window s.q.queue N s.q.top (k - s.q.top)) h

  -- With one position more, the slot at that position is the last.
  contents_extend :
      (f : ℕ → ℕ) (b : ℕ)
      → s.q.top ≤ b
      → window f N s.q.top (suc b - s.q.top) ≡ window f N s.q.top (b - s.q.top) ++ f (b % N) ∷ []
  contents_extend f b h =
      let n : suc b - s.q.top ≡ suc (b - s.q.top) = omega arith in
      let p : s.q.top + (b - s.q.top) ≡ b = omega arith in
      ap (window f N s.q.top) n
      ∙ (window-snoc f N s.q.top (b - s.q.top)
          ∙ ap (λ k. window f N s.q.top (b - s.q.top) ++ f (k % N) ∷ []) p)

  store_slot-Change :
      {x : ℕ}
      → s.owner ≡ pushing x
      → window (update_at s.q.queue (s.q.bottom % N) x) N s.q.top (s.q.bottom - s.q.top)
        ≡ contents N s
  store_slot-Change {x} o =
      let e = end_at v o in
      window-update_at s.q.queue N s.q.bottom x s.q.top (s.q.bottom - s.q.top)
        (omega (arith, e, v.ordered)) (own_at v o)
      ∙ contents_keep s.q.bottom (sym e)

  publish-Change :
      {x : ℕ}
      → s.owner ≡ stored x
      → window s.q.queue N s.q.top (increment s.q.bottom - s.q.top) ≡ contents N s ++ x ∷ []
  publish-Change {x} o =
      let e = end_at v o in
      let i : increment s.q.bottom ≡ suc s.q.bottom = omega (arith, e, end_bound v) in
      ap (λ k. window s.q.queue N s.q.top (k - s.q.top)) i
      ∙ (contents_extend s.q.queue s.q.bottom (omega (arith, e, v.ordered))
          ∙ (ap (λ y. window s.q.queue N s.q.top (s.q.bottom - s.q.top) ++ y ∷ []) (own_at v o).1
              ∙ ap (λ xs. xs ++ x ∷ []) (contents_keep s.q.bottom (sym e))))

  pop_inner-Change :
      s.owner ≡ popping
      → signed_leb s.q.top s.q.bottom ≡ true
      → contents N s
        ≡ window s.q.queue N s.q.top (s.q.bottom - s.q.top) ++ s.q.queue (s.q.bottom % N) ∷ []
  pop_inner-Change o r =
      let (small, above, e) =
        popped s.q.top s.q.bottom (end s) (omega (arith, v.ordered, end_bound v)) (end_bound v)
          (own_at v o) (sym (end_at v o)) r in
      ap (λ k. window s.q.queue N s.q.top (k - s.q.top)) e
      ∙ contents_extend s.q.queue s.q.bottom above

  win-Change :
      s.owner ≡ racing
      → (s.q.top == s.q.bottom) ≡ true
      → contents N s
        ≡ window s.q.queue N (increment s.q.top) (increment s.q.bottom - increment s.q.top)
          ++ s.q.queue (s.q.bottom % N) ∷ []
  win-Change o n =
      let t : s.q.top ≡ s.q.bottom = ==-to_eq s.q.top s.q.bottom n in
      let e : end s - s.q.top ≡ 1 = omega (arith, end_at v o, (own_at v o).0) in
      let z : increment s.q.bottom - increment s.q.top ≡ 0 = omega arith in
      ap (window s.q.queue N s.q.top) e
      ∙ (ap (λ k. s.q.queue (k % N) ∷ []) t
          ∙ ap (λ k. window s.q.queue N (increment s.q.top) k ++ s.q.queue (s.q.bottom % N) ∷ [])
              (sym z))

  win_steal-Change :
      (i : ℕ) {tp ptr : ℕ}
      → s.thieves i ≡ ready tp ptr
      → (s.q.top == tp) ≡ true
      → contents N s ≡ ptr ∷ window s.q.queue N (increment tp) (end s - increment tp)
  win_steal-Change i {tp} {ptr} h won =
      let (old, here, slot) = thief_at i v h in
      let t : s.q.top ≡ tp = ==-to_eq s.q.top tp won in
      let below : tp < end s = here (sym t) in
      let k : increment tp ≡ suc tp = omega (arith, below, end_bound v) in
      let n : end s - tp ≡ suc (end s - increment tp) = omega (arith, k, below) in
      ap (λ p. window s.q.queue N p (end s - p)) t
      ∙ (ap (window s.q.queue N tp) n
          ∙ (ap (λ y. y ∷ window s.q.queue N (suc tp) (end s - increment tp)) (slot (sym t))
              ∙ ap (λ p. ptr ∷ window s.q.queue N p (end s - increment tp)) (sym k)))

Step-Change : (N : ℕ) {s t : State} → Inv N s → (st : Step N s t) → Change N s t (act st)
Step-Change N v (begin_push x o r) = silent (contents_keep v _ (sym (end_at v o))) refl refl
Step-Change N v (store_slot o) = silent (store_slot-Change v o) refl refl
Step-Change N v (publish {x} o) = adds x (publish-Change v o) refl refl
Step-Change N v (begin_pop o) =
    silent (contents_keep v _ (omega (arith, end_at v o, end_bound v))) refl refl
Step-Change N v (pop_empty o r) = silent (contents_keep v _ (sym (end_at v o))) refl refl
Step-Change N v (pop_inner o r n) = takes_last _ (pop_inner-Change v o r) refl refl
Step-Change N v (pop_last o r n) = silent (contents_keep v _ (sym (end_at v o))) refl refl
Step-Change N v (win o n) = takes_last _ (win-Change v o n) refl refl
Step-Change N v (lose o n) = silent (contents_keep v _ (sym (end_at v o))) refl refl
Step-Change N v (restore o) = silent (contents_keep v _ (sym (end_at v o))) refl refl
Step-Change N v (look i h) = silent refl refl refl
Step-Change N v (see i h r) = silent refl refl refl
Step-Change N v (see_empty i h r) = silent refl refl refl
Step-Change N v (load i h) = silent refl refl refl
Step-Change N v (win_steal i {ptr} h n) = takes_first ptr (win_steal-Change v i h n) refl refl
Step-Change N v (abort i h r) = silent refl refl refl

-- In every reachable state with fewer than 2 ^ 63 pushes, each access changes the double-ended queue of
-- the handles by what its call does there: the last access of a push adds its handle at the bottom, the
-- deciding access of a pop hands out the handle at the bottom, the youngest, and that of a steal the one
-- at the top, the oldest. All other accesses leave the queue of the handles as it is.
pub Reach-Change :
    (N : ℕ) {s t : State}
    → Reach N s
    → (st : Step N s t) → length t.pushed < 2 ^ 63
    → Change N s t (act st)
Reach-Change N r st b = Step-Change N (Reach-Inv N r (grows N st b)) st

-- What has been pushed has been taken or is in the queue, as often.
abbrev Conserved : ℕ → State → Type 0
Conserved N s = (x : ℕ) → count x s.pushed ≡ count x s.taken + count x (contents N s)

Change-Conserved : {N : ℕ} {s t : State} {a : Act} → Change N s t a → Conserved N s → Conserved N t
Change-Conserved {N} {s} {t} (silent c p k) h x = ap (count x) p ∙ (h x ∙ sym (rw (c, k) refl))
Change-Conserved {N} {s} {t} (adds y c p k) h x =
    let e = ap (count x) c ∙ count-append x (contents N s) (y ∷ []) in
    ground (arith, ap (count x) p, ap (count x) k, e, h x)
Change-Conserved {N} {s} {t} (takes_last y c p k) h x =
    let e = ap (count x) c ∙ count-append x (contents N t) (y ∷ []) in
    ground (arith, ap (count x) p, ap (count x) k, e, h x)
Change-Conserved {N} {s} {t} (takes_first y c p k) h x =
    ground (arith, ap (count x) p, ap (count x) k, ap (count x) c, h x)

-- Any number of threads steal while the owner pushes and pops, in any interleaving, with fewer than
-- 2 ^ 63 pushes: each handle has been handed out or is still in the queue, together exactly as often
-- as it has been pushed. So none is lost, and none is handed out twice for one push.
pub Reach-Conserved :
    (N : ℕ) {s : State} (x : ℕ)
    → Reach N s
    → length s.pushed < 2 ^ 63
    → count x s.pushed ≡ count x s.taken + count x (contents N s)
unfolding new_queue
Reach-Conserved N {s} x r b = all r b x
  where
    all : {s : State} → Reach N s → length s.pushed < 2 ^ 63 → Conserved N s
    all start b = λ x. refl
    all (next r st) b =
        let c = grows N st b in Change-Conserved (Step-Change N (Reach-Inv N r c) st) (all r c)
