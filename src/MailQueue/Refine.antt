-- ===== src/MailQueue/Refine.antt =====
-- `MailQueue` refines the bounded queue of Fifo.antt.
use native.Mathlib.Nat.{add-mod_right, add-zero}
use acnet.Prelude.{
  slot_of, word, ℕ, suc, ◌+◌, ◌-◌, ◌%◌, ◌<◌, ◌≡◌, ◌==◌, true, false, Option, none, some, List, [],
  ◌∷◌, arith, length, refl, ==-to_eq, Bool-cases, inl, inr, ap, ◌∙◌, subst,
}
use acnet.MailQueue.{
  Slot, MailQueue, diff, is_negative, add, update, try_enqueue, try_dequeue, can_dequeue,
}
use acnet.MailQueue.Ring.{Filled, diff_behind, Filled-update, Free-update, Free-snoc}
use acnet.MailQueue.Fifo
use acnet.MailQueue.Fifo.{Op, Reply}
use acnet.MailQueue.Slots.{
  IsRing, Free-head, diff_self, update_self, after_enqueue, after_enqueue-IsRing, accepts, refuses,
}

-- Dequeueing: an empty ring, and one with a message.
diff-empty :
    (r : ℕ) (q : MailQueue)
    → IsRing r [] q
    → is_negative (diff (q.queue (q.read_index % q.size)).sequence (add q.read_index 1)) ≡ true
unfolding is_negative add
diff-empty r q v =
    let at_slot = slot_of q.size r q.read_index v.divides v.taken in
    let f =
      rw (add-zero r) at (Free-head q.queue q.size (r + 0) (q.size - 0) (omega arith) v.free) in
    let e : (q.read_index + 1) % word ≡ (r + 1) % word = omega (arith, v.taken) in
    rw (at_slot, f, e, diff_behind r 1 (omega arith) (omega arith)) refl

diff-nonempty :
    (r x : ℕ) (xs : List ℕ) (q : MailQueue)
    → IsRing r (x ∷ xs) q
    → is_negative (diff (q.queue (q.read_index % q.size)).sequence (add q.read_index 1)) ≡ false
unfolding is_negative add
diff-nonempty r x xs q v =
    let at_slot = slot_of q.size r q.read_index v.divides v.taken in
    let f : (q.queue (r % q.size)).sequence ≡ suc r % word =
      ap (λ (s : Slot). s.sequence) v.filled.0 in
    let e : (q.read_index + 1) % word ≡ suc r % word = omega (arith, v.taken) in
    rw (at_slot, f, e, diff_self (suc r % word) (omega arith)) refl

after_dequeue : MailQueue → MailQueue
after_dequeue q = record q {
  read_index = add q.read_index 1;
  queue =
      update q.queue (q.read_index % q.size)
        (record { sequence = add q.read_index q.size; message = 0 });
}

after_dequeue-IsRing :
    (r x : ℕ) (xs : List ℕ) (q : MailQueue)
    → IsRing r (x ∷ xs) q
    → IsRing (suc r) xs (after_dequeue q)
unfolding after_dequeue add
after_dequeue-IsRing r x xs q v =
    let n = length xs in
    let at_slot = slot_of q.size r q.read_index v.divides v.taken in
    let s : Slot = record { sequence = (q.read_index + q.size) % word; message = 0 } in
    let number : (q.read_index + q.size) % word ≡ (r + q.size) % word = omega (arith, v.taken) in
    let start : suc r + n ≡ r + suc n = omega arith in
    let count : q.size - n ≡ suc (q.size - suc n) = omega (arith, v.fits) in
    let total : r + suc n + (q.size - suc n) ≡ r + q.size = omega (arith, v.fits) in
    record {
      big = v.big;
      small = v.small;
      divides = v.divides;
      fits = omega (arith, v.fits);
      written = omega (arith, v.written);
      taken = omega (arith, v.taken);
      filled = rw at_slot (
          subst (λ (i : ℕ). Filled (update q.queue i s) q.size (suc r) xs) (add-mod_right r q.size)
            (Filled-update q.queue q.size s (r + q.size) (suc r) xs (omega (arith, v.fits))
              (omega arith) v.filled.1));
      free =
          rw (at_slot, start, count)
            (Free-snoc (update q.queue (r % q.size) s) q.size (r + suc n) (q.size - suc n)
              (Free-update q.queue q.size s r (r + suc n) (q.size - suc n) (omega arith)
                (omega (arith, v.fits)) v.free)
              (rw (total, add-mod_right r q.size)
                (ap (λ (t : Slot). t.sequence) (update_self q.queue (r % q.size) s) ∙ number)));
    }

dequeue-empty : (r : ℕ) (q : MailQueue) → IsRing r [] q → try_dequeue q ≡ (q, none)
unfolding try_dequeue
dequeue-empty r q v = simp (diff-empty r q v)

dequeue-nonempty :
    (r x : ℕ) (xs : List ℕ) (q : MailQueue)
    → IsRing r (x ∷ xs) q
    → try_dequeue q ≡ (after_dequeue q, some x)
unfolding try_dequeue after_dequeue
dequeue-nonempty r x xs q v =
    let at_slot = slot_of q.size r q.read_index v.divides v.taken in
    let m : (q.queue (q.read_index % q.size)).message ≡ x =
      rw at_slot (ap (λ (s : Slot). s.message) v.filled.0) in
    simp (diff-nonempty r x xs q v, m)

-- A call of the queue and its reply; `none` where `try_enqueue` would not return.
pub step : Op → MailQueue → Option (MailQueue × Reply)
step (Op.enqueue m) q = elim (try_enqueue m q) [
  | none ↦ none
  | some (q', done) ↦ some (q', Reply.accepted done)
]
step Op.dequeue q = let (q', out) = try_dequeue q in some (q', Reply.received out)
step Op.can_dequeue q = some (q, Reply.ready (can_dequeue q))

pub run : MailQueue → List Op → Option (List Reply)
run q [] = some []
run q (op ∷ ops) = elim (step op q) [
  | none ↦ none
  | some (q', reply) ↦ elim (run q' ops) [ none ↦ none | some replies ↦ some (reply ∷ replies) ]
]

-- Each call returns, with the reply of the bounded queue, and leaves a ring of that queue's
-- messages: an enqueue is refused exactly if `size` messages are in the queue and otherwise adds its
-- message at the end, a dequeue takes the oldest message, and `can_dequeue` tells whether there is
-- one. The index of the oldest message and the index of the next may both have wrapped.
pub step_refines :
    (op : Op) (r : ℕ) (xs : List ℕ) (q : MailQueue)
    → IsRing r xs q
    → let (ys, reply) = Fifo.step q.size op xs in
      (q' : MailQueue) × (r' : ℕ) × (step op q ≡ some (q', reply))
      × IsRing r' ys q'
      × (q'.size ≡ q.size)
unfolding step Fifo.step Fifo.push Fifo.pop can_dequeue after_enqueue after_dequeue
step_refines (Op.enqueue m) r xs q v = elim (Bool-cases (length xs == q.size)) [
  | inl e ↦
      (q, r, rw (refuses r m xs q v (==-to_eq (length xs) q.size e), step, e) refl, rw e v, refl)
  | inr e ↦
      let h : length xs < q.size = ground (arith, v.fits) in
      (
        after_enqueue m q,
        r,
        rw (accepts r m xs q v h, step, e) refl,
        rw e (after_enqueue-IsRing r m xs q v h),
        refl,
      )
]
step_refines Op.dequeue r [] q v = (q, r, rw (dequeue-empty r q v) refl, v, refl)
step_refines Op.dequeue r (x ∷ xs) q v = (
  after_dequeue q,
  suc r,
  rw (dequeue-nonempty r x xs q v) refl,
  after_dequeue-IsRing r x xs q v,
  refl,
)
step_refines Op.can_dequeue r [] q v = (q, r, rw (diff-empty r q v) refl, v, refl)
step_refines Op.can_dequeue r (x ∷ xs) q v = (q, r, rw (diff-nonempty r x xs q v) refl, v, refl)

-- No sequence of calls tells the ring from the bounded queue of its messages, and every call
-- returns, however often the indices wrap.
pub run_refines :
    (ops : List Op) (r : ℕ) (xs : List ℕ) (q : MailQueue)
    → IsRing r xs q
    → run q ops ≡ some (Fifo.run q.size xs ops)
unfolding run Fifo.run
run_refines [] r xs q v = refl
run_refines (op ∷ ops) r xs q v =
    let (q', r', e, v', s) = step_refines op r xs q v in
    rw (e, run, run_refines ops r' (Fifo.step q.size op xs).0 q' v', s) refl
