-- ===== src/SpscQueue/Refine.antt =====
-- The ring is the first-in first-out queue of `N - 1` items, also where its indices wrap.
use Prim.Native.Nat.{◌∣◌}
use mathlib.Core.Path.{ap₂}
use native.Mathlib.Nat.{add-mod_right}
use acnet.Prelude.{
  ℕ, suc, ◌+◌, ◌-◌, ◌%◌, ◌^◌, ◌≤◌, ◌<◌, ◌≡◌, ◌≢◌, ◌==◌, leb, refl, if◌then◌else◌, Bool, true, false,
  Option, none, some, List, [], ◌∷◌, ◌++◌, length, length-append, arith, word, window, window-push,
  mod_ne, slot_of, update_at, increment, Bool-cases, inl, inr, ap, ◌∙◌, ==-refl,
}
use acnet.SpscQueue.{SpscQueue, new_spsc_queue, try_enqueue, try_dequeue}

-- The calls, and what they return.
pub data Op {ℓ} (T : Type ℓ) : Type ℓ where
  enqueue : T → Op T
  dequeue : Op T

pub data Reply {ℓ} (T : Type ℓ) : Type ℓ where
  accepted : Bool → Reply T
  received : Option T → Reply T

-- A queue of at most `cap` items.
module _ {ℓ} {T : Type ℓ} (cap : ℕ) where
  unfoldable pub bounded_step : Op T → List T → List T × Reply T
  bounded_step (enqueue x) xs =
      if leb cap (length xs) then (xs, accepted false) else (xs ++ x ∷ [], accepted true)
  bounded_step dequeue [] = ([], received none)
  bounded_step dequeue (x ∷ xs) = (xs, received (some x))

  unfoldable pub bounded_run : List T → List (Op T) → List (Reply T)
  bounded_run xs [] = []
  bounded_run xs (op ∷ ops) = let (ys, r) = bounded_step op xs in r ∷ bounded_run ys ops

module _ {ℓ} {T : Type ℓ} (N : ℕ) where
  unfoldable pub step : Op T → SpscQueue T → SpscQueue T × Reply T
  step (enqueue x) q = let (q', done) = try_enqueue N x q in (q', accepted done)
  step dequeue q = let (q', out) = try_dequeue N q in (q', received out)

  unfoldable pub run : SpscQueue T → List (Op T) → List (Reply T)
  run q [] = []
  run q (op ∷ ops) = let (q', r) = step op q in r ∷ run q' ops

  -- The ring holds `xs`, its first item at the position `r`.
  record Holds (r : ℕ) (xs : List T) (q : SpscQueue T) : Type ℓ where
    divides : N ∣ word
    small : N ≤ 2 ^ 63
    fits : length xs < N
    written : q.write_index ≡ (r + length xs) % word
    taken : q.read_index ≡ r % word
    contents : window q.queue N r (length xs) ≡ xs

  abbrev Implements : Op T → List T → SpscQueue T → Type ℓ
  Implements op xs q =
      let (ys, reply) = bounded_step (N - 1) op xs in
      let (q', reply') = step op q in ((r' : ℕ) × Holds r' ys q') × (reply' ≡ reply)

  -- The slot behind the one that is written.
  next_slot :
      (r : ℕ) (xs : List T) (q : SpscQueue T)
      → Holds r xs q
      → (increment q.write_index % N ≡ suc (r + length xs) % N)
        × (q.write_index % N ≡ (r + length xs) % N)
        × (q.read_index % N ≡ r % N)
  next_slot r xs q v = (
    slot_of N (suc (r + length xs)) (increment q.write_index) v.divides (omega (arith, v.written)),
    slot_of N (r + length xs) q.write_index v.divides v.written,
    slot_of N r q.read_index v.divides v.taken,
  )

  full_test :
      (r : ℕ) (xs : List T) (q : SpscQueue T)
      → Holds r xs q
      → suc (length xs) ≡ N
      → (increment q.write_index % N == q.read_index % N) ≡ true
  full_test r xs q v e =
      let (a, b, c) = next_slot r xs q v in
      let k : suc (r + length xs) ≡ r + N = omega arith in
      rw (a, c, k, add-mod_right r N) (==-refl (r % N))

  free_test :
      (r : ℕ) (xs : List T) (q : SpscQueue T)
      → Holds r xs q
      → suc (length xs) < N
      → (increment q.write_index % N == q.read_index % N) ≡ false
  free_test r xs q v h =
      let (a, b, c) = next_slot r xs q v in
      let d = mod_ne N r (suc (r + length xs)) (omega arith) (omega arith) in
      ground (arith, a, c, d)

  enqueue-Holds :
      (x : T) (r : ℕ) (xs : List T) (q : SpscQueue T)
      → suc (length xs) < N
      → Holds r xs q
      → Holds r (xs ++ x ∷ []) (record q {
        queue = update_at q.queue (q.write_index % N) x;
        write_index = increment q.write_index;
      })
  enqueue-Holds x r xs q h v =
      let e : length (xs ++ x ∷ []) ≡ suc (length xs) = omega (arith, length-append xs (x ∷ [])) in
      let s = (next_slot r xs q v).1 in
      record {
        divides = v.divides;
        small = v.small;
        fits = omega arith;
        written = omega (arith, v.written, e);
        taken = v.taken;
        contents =
            ap (λ i. window (update_at q.queue i x) N r (length (xs ++ x ∷ []))) s
            ∙ ap (window (update_at q.queue ((r + length xs) % N) x) N r) e
            ∙ window-push q.queue N (r + length xs) x r (length xs) refl (omega arith)
            ∙ ap (λ ys. ys ++ x ∷ []) v.contents;
      }

  enqueue-Implements :
      (x : T) (r : ℕ) (xs : List T) (q : SpscQueue T) → Holds r xs q → Implements (enqueue x) xs q
  unfolding step try_enqueue bounded_step
  enqueue-Implements x r xs q v = elim (Bool-cases (leb (N - 1) (length xs))) [
    | inl full ↦
        let e = full_test r xs q v (ground (arith, v.fits)) in
        rw (full, e, try_enqueue) ((r, v), refl)
    | inr free ↦
        let h : suc (length xs) < N = ground (arith, v.fits) in
        rw (free, free_test r xs q v h, try_enqueue) ((r, enqueue-Holds x r xs q h v), refl)
  ]

  dequeue-Implements :
      (r : ℕ) (xs : List T) (q : SpscQueue T) → Holds r xs q → Implements dequeue xs q
  unfolding step try_dequeue bounded_step
  dequeue-Implements r [] q v =
      let e : (q.read_index == q.write_index) ≡ true = ground (arith, v.written, v.taken) in
      rw (e, try_dequeue) ((r, v), refl)
  dequeue-Implements r (x ∷ xs) q v =
      let d : q.read_index ≢ q.write_index = omega (arith, v.written, v.taken, v.fits, v.small) in
      let e : (q.read_index == q.write_index) ≡ false = ground (arith, d) in
      let s = (next_slot r (x ∷ xs) q v).2 in
      rw (e, try_dequeue, s)
        (
          (
            suc r,
            record {
              divides = v.divides;
              small = v.small;
              fits = omega (arith, v.fits);
              written = omega (arith, v.written);
              taken = omega (arith, v.taken);
              contents = cc (v.contents);
            },
          ),
          ap (λ o. received (some o)) (cc (v.contents)),
        )

  step-Implements :
      (op : Op T) (r : ℕ) (xs : List T) (q : SpscQueue T) → Holds r xs q → Implements op xs q
  step-Implements (enqueue x) r xs q v = enqueue-Implements x r xs q v
  step-Implements dequeue r xs q v = dequeue-Implements r xs q v

  run_refines :
      (ops : List (Op T)) (r : ℕ) (xs : List T) (q : SpscQueue T)
      → Holds r xs q
      → run q ops ≡ bounded_run (N - 1) xs ops
  unfolding run bounded_run
  run_refines [] r xs q v = refl
  run_refines (op ∷ ops) r xs q v =
      let ((r', w), e) = step-Implements op r xs q v in
      ap₂ (λ a b. a ∷ b) e (run_refines ops r' (bounded_step (N - 1) op xs).0 (step op q).0 w)

-- A new `SPSCQueue` of a size that divides 2 ^ 64, up to 2 ^ 63, answers every sequence of calls as
-- the first-in first-out queue of one item less: it refuses an item exactly when it holds `N - 1`.
pub spsc_queue_refines {ℓ} :
    {T : Type ℓ} (N : ℕ) (content : ℕ → T) (ops : List (Op T))
    → 0 < N
    → N ≤ 2 ^ 63
    → N ∣ word
    → run N (new_spsc_queue content) ops ≡ bounded_run (N - 1) [] ops
unfolding new_spsc_queue
spsc_queue_refines N content ops h k d =
    run_refines N ops 0 [] (new_spsc_queue content)
      (record { divides = d; small = k; fits = h; written = refl; taken = refl; contents = refl })
