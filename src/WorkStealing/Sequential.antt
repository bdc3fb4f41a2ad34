-- ===== src/WorkStealing/Sequential.antt =====
-- Without interference `WorkStealingQueue` is the bounded double-ended queue of Deque.antt.
use acnet.Prelude.{
  ℕ, suc, ◌+◌, ◌^◌, ◌%◌, ◌≤◌, ◌<◌, ◌≡◌, ◌==◌, refl, leb, true, false, Option, none, some, List, [],
  ◌∷◌, ◌++◌, length, arith, window, window-snoc, window-push, Bool-cases, inl, inr, update_at, ap,
  sym, ◌∙◌, snoc_cases, signed_ltb_small, signed_leb_small, signed_leb-decrement, snoc_injective,
  subst, length-append, increment, decrement, subtract, signed_ltb, signed_leb,
}
use acnet.WorkStealing.{
  WorkStealingQueue, StealState, success, push, pop, steal, approx_size, new_queue,
}
use acnet.WorkStealing.Deque
use acnet.WorkStealing.Deque.{Op, Reply, accepted, taken, measured, take_last-snoc}

-- No handle is null.
abbrev pub AllPos : List ℕ → Type 0
AllPos [] = Unit {0}
AllPos (x ∷ xs) = (0 < x) × AllPos xs

pub AllPos-snoc : (xs : List ℕ) (x : ℕ) → AllPos xs → 0 < x → AllPos (xs ++ x ∷ [])
AllPos-snoc [] x a h = (h, tt)
AllPos-snoc (y ∷ ys) x a h = (a.0, AllPos-snoc ys x a.1 h)

pub AllPos-init : (xs : List ℕ) (x : ℕ) → AllPos (xs ++ x ∷ []) → AllPos xs × (0 < x)
AllPos-init [] x a = (tt, a.0)
AllPos-init (y ∷ ys) x a = let (b, c) = AllPos-init ys x a.1 in ((a.0, b), c)

-- The ring holds the handles of the positions from `top` up to `bottom`, none of them null, and the
-- positions have not passed 2 ^ 63.
pub record Holds (N : ℕ) (xs : List ℕ) (q : WorkStealingQueue) : Type 0 where
  pub small : q.bottom < 2 ^ 63
  pub placed : q.bottom ≡ q.top + length xs
  pub fits : length xs ≤ N
  pub contents : window q.queue N q.top (length xs) ≡ xs
  pub present : AllPos xs

-- No null handle is pushed.
abbrev pub IsCall : Op → Type 0
IsCall (Op.push x) = 0 < x
IsCall op = Unit {0}

abbrev pub AreCalls : List Op → Type 0
AreCalls [] = Unit {0}
AreCalls (op ∷ ops) = IsCall op × AreCalls ops

window_nil : (f : ℕ → ℕ) (N t : ℕ) (xs : List ℕ) → length xs ≡ 0 → window f N t (length xs) ≡ xs
window_nil f N t [] h = refl
window_nil f N t (x ∷ xs) h = absurd (omega arith)

module _ (N : ℕ) where
  -- A handle that is handed out, by the state.
  abbrev pub handed : ℕ → StealState → Option ℕ
  handed ptr success = some ptr
  handed ptr _ = none

  pub step : Op → WorkStealingQueue → WorkStealingQueue × Reply
  step (Op.push x) q = let (q', done) = push N x q in (q', accepted done)
  step Op.pop q = let (q', ptr, state) = pop N q in (q', taken (handed ptr state))
  step Op.steal q = let (q', ptr, state) = steal N q in (q', taken (handed ptr state))
  step Op.approx_size q = (q, measured (approx_size q))

  abbrev pub Implements : Op → List ℕ → WorkStealingQueue → Type 0
  Implements op xs q =
      let (ys, r) = Deque.step N op xs in
      let (q', r') = step op q in Holds N ys q' × (r' ≡ r) × (q'.bottom ≤ suc q.bottom)

  abbrev pushed : ℕ → WorkStealingQueue → WorkStealingQueue
  pushed x q = record q { queue = update_at q.queue (q.bottom % N) x; bottom = increment q.bottom }

  push-Holds :
      (x : ℕ) (xs : List ℕ) (q : WorkStealingQueue)
      → 0 < x
      → suc q.bottom < 2 ^ 63
      → length xs < N
      → Holds N xs q
      → Holds N (xs ++ x ∷ []) (pushed x q)
  push-Holds x xs q n h l v =
      let e : length (xs ++ x ∷ []) ≡ suc (length xs) = omega (arith, length-append xs (x ∷ [])) in
      record {
        small = omega arith;
        placed = omega (arith, e, v.placed);
        fits = omega (arith, e);
        contents =
            ap (window (pushed x q).queue N q.top) e
            ∙ (window-push q.queue N q.bottom x q.top (length xs) v.placed l
                ∙ ap (λ ys. ys ++ x ∷ []) v.contents);
        present = AllPos-snoc xs x v.present n;
      }

  push-Implements :
      (x : ℕ) (xs : List ℕ) (q : WorkStealingQueue)
      → 0 < x
      → suc q.bottom < 2 ^ 63
      → Holds N xs q
      → Implements (Op.push x) xs q
  unfolding step push Deque.step
  push-Implements x xs q n h v =
      let e : subtract q.bottom q.top ≡ length xs = omega (arith, v.placed, v.small) in
      elim (Bool-cases (leb N (length xs))) [
        | inl full ↦ rw (e, push, full) (v, refl, omega arith)
        | inr free ↦ rw (e, push, free) (push-Holds x xs q n h (ground arith) v, refl, omega arith)
      ]

  steal-Implements : (xs : List ℕ) (q : WorkStealingQueue) → Holds N xs q → Implements Op.steal xs q
  unfolding step steal Deque.step Deque.take_first
  steal-Implements [] q v =
      let e : signed_ltb q.top q.bottom ≡ false =
        signed_ltb_small q.top q.bottom (omega (arith, v.placed, v.small)) v.small
        ∙ ground (arith, v.placed) in
      rw (e, steal) (v, refl, omega arith)
  steal-Implements (x ∷ xs) q v =
      let e : signed_ltb q.top q.bottom ≡ true =
        signed_ltb_small q.top q.bottom (omega (arith, v.placed, v.small)) v.small
        ∙ ground (arith, v.placed) in
      let t : increment q.top ≡ suc q.top = omega (arith, v.placed, v.small) in
      rw (e, steal, t)
        (
          record {
            small = v.small;
            placed = omega (arith, v.placed);
            fits = omega (arith, v.fits);
            contents = ground (arith, v.contents);
            present = v.present.1;
          },
          ground (arith, v.contents),
          omega arith,
        )

  -- The last handle, and what is left without it.
  pop-Holds :
      (xs : List ℕ) (x : ℕ) (q : WorkStealingQueue)
      → Holds N (xs ++ x ∷ []) q
      → (decrement q.bottom ≡ q.top + length xs)
        × (q.queue (decrement q.bottom % N) ≡ x)
        × (window q.queue N q.top (length xs) ≡ xs)
        × (length xs < N)
        × (0 < x)
        × (q.bottom ≡ suc (q.top + length xs))
  pop-Holds xs x q v =
      let e : length (xs ++ x ∷ []) ≡ suc (length xs) = omega (arith, length-append xs (x ∷ [])) in
      let d : decrement q.bottom ≡ q.top + length xs = omega (arith, v.placed, v.small, e) in
      let (w, l) = snoc_injective (window q.queue N q.top (length xs)) xs _ x (
        sym (window-snoc q.queue N q.top (length xs))
        ∙ (ap (window q.queue N q.top) (sym e) ∙ v.contents)) in
      (
        d,
        ap (λ k. q.queue (k % N)) d ∙ l,
        w,
        omega (arith, v.fits, e),
        (AllPos-init xs x v.present).1,
        omega (arith, v.placed, e),
      )

  pop-Implements_nil : (q : WorkStealingQueue) → Holds N [] q → Implements Op.pop [] q
  unfolding step pop Deque.step Deque.take_last
  pop-Implements_nil q v =
      let f : signed_leb q.top (decrement q.bottom) ≡ false =
        ap (λ t. signed_leb t (decrement q.bottom)) (omega (arith, v.placed))
        ∙ signed_leb-decrement q.bottom v.small in
      let i : increment (decrement q.bottom) ≡ q.bottom = omega (arith, v.small) in
      rw (f, pop, i) (v, refl, omega arith)

  pop-Implements_snoc :
      (xs : List ℕ) (x : ℕ) (q : WorkStealingQueue)
      → Holds N (xs ++ x ∷ []) q
      → Implements Op.pop (xs ++ x ∷ []) q
  unfolding step pop Deque.step
  pop-Implements_snoc xs x q v =
      let (d, l, w, n, p, b) = pop-Holds xs x q v in
      let e : leb q.top (decrement q.bottom) ≡ true = ground (arith, d) in
      let f =
        signed_leb_small q.top (decrement q.bottom) (omega (arith, b, v.small))
          (omega (arith, b, v.small))
        ∙ e in
      let z : (x == 0) ≡ false = ground arith in
      let a = AllPos-init xs x v.present in
      let i : increment (decrement q.bottom) ≡ q.bottom = omega (arith, v.small) in
      elim (Bool-cases (q.top == decrement q.bottom)) [
        | inl last ↦
            let k : length xs ≡ 0 = ground (arith, d) in
            let t : increment q.top ≡ q.top + 1 = omega (arith, b, v.small) in
            rw (f, pop, last, l, z, i, take_last-snoc xs x, t)
              (
                record {
                  small = v.small;
                  placed = omega (arith, b);
                  fits = omega (arith, n);
                  contents = window_nil q.queue N (q.top + 1) xs k;
                  present = a.0;
                },
                refl,
                omega arith,
              )
        | inr more ↦
            rw (f, pop, more, l, z, take_last-snoc xs x)
              (
                record {
                  small = omega (arith, v.small);
                  placed = d;
                  fits = omega (arith, n);
                  contents = w;
                  present = a.0;
                },
                refl,
                omega arith,
              )
      ]

  pop-Implements : (xs : List ℕ) (q : WorkStealingQueue) → Holds N xs q → Implements Op.pop xs q
  unfolding step pop Deque.step Deque.take_last
  pop-Implements xs q v = elim (snoc_cases xs) [
    | inl e ↦
        subst (λ zs. Implements Op.pop zs q) (sym e)
          (pop-Implements_nil q (subst (λ zs. Holds N zs q) e v))
    | inr (ys, y, e) ↦
        subst (λ zs. Implements Op.pop zs q) (sym e)
          (pop-Implements_snoc ys y q (subst (λ zs. Holds N zs q) e v))
  ]

  approx_size-Implements :
      (xs : List ℕ) (q : WorkStealingQueue) → Holds N xs q → Implements Op.approx_size xs q
  unfolding step approx_size Deque.step
  approx_size-Implements xs q v =
      let d : subtract q.bottom q.top ≡ length xs = omega (arith, v.placed, v.small) in
      (
        v,
        rw (d, signed_ltb_small 0 (length xs) (omega arith) (omega (arith, v.placed, v.small)))
            (ground arith),
        omega arith,
      )

  step-Implements :
      (op : Op) (xs : List ℕ) (q : WorkStealingQueue)
      → IsCall op
      → suc q.bottom < 2 ^ 63
      → Holds N xs q
      → Implements op xs q
  step-Implements (Op.push x) xs q c h v = push-Implements x xs q c h v
  step-Implements Op.pop xs q c h v = pop-Implements xs q v
  step-Implements Op.steal xs q c h v = steal-Implements xs q v
  step-Implements Op.approx_size xs q c h v = approx_size-Implements xs q v

  pub run : WorkStealingQueue → List Op → List Reply
  run q [] = []
  run q (op ∷ ops) = let (q', r) = step op q in r ∷ run q' ops

  run_refines :
      (ops : List Op) (xs : List ℕ) (q : WorkStealingQueue)
      → AreCalls ops
      → q.bottom + length ops < 2 ^ 63
      → Holds N xs q
      → run q ops ≡ Deque.run N xs ops
  unfolding run Deque.run
  run_refines [] xs q c h v = refl
  run_refines (op ∷ ops) xs q c h v =
      let (w, e, b) = step-Implements op xs q c.0 (omega arith) v in
      let rest = run_refines ops (Deque.step N op xs).0 (step op q).0 c.1 (omega arith) w in
      ground (arith, e, rest)

-- A new `WorkStealingQueue` of any size answers every sequence of fewer than 2 ^ 63 calls, none of
-- which pushes a null handle, as the double-ended queue of that capacity: a push is refused exactly
-- when it is full, a pop takes the youngest handle and a steal the oldest, both say so when there is
-- none, and `approx_size` is the number of handles.
pub work_stealing_refines :
    (N : ℕ) (ops : List Op)
    → AreCalls ops
    → length ops < 2 ^ 63
    → run N new_queue ops ≡ Deque.run N [] ops
unfolding new_queue
work_stealing_refines N ops c h = run_refines N ops [] new_queue c (omega arith) (record {
  small = omega arith;
  placed = refl;
  fits = omega arith;
  contents = refl;
  present = tt;
})
