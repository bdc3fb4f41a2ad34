-- ===== src/MailQueue/Slots.antt =====
-- The slots of a ring, and what `try_enqueue` does to it.
use native.Mathlib.Nat.{add-mod_right}
use Prim.Native.Nat.{◌∣◌}
use native.Mathlib.Numerals.{sub-one}
use acnet.Prelude.{
  slot_of, word, ℕ, zero, suc, ◌+◌, ◌-◌, ◌%◌, ◌^◌, ◌≤◌, ◌<◌, ◌≡◌, true, false, some, List, [], ◌∷◌,
  ◌++◌, arith, length, length-append, refl, ==-refl, ap, ◌∙◌,
}
use acnet.MailQueue.{Slot, MailQueue, diff, is_negative, add, update, try_enqueue}
use acnet.MailQueue.Ring.{Filled, Free, diff_behind, Filled-update, Free-update, Filled-snoc}

-- The ring holds `xs`, its first message at the position `r`.
pub record IsRing (r : ℕ) (xs : List ℕ) (q : MailQueue) : Type 0 where
  pub big : 2 ≤ q.size
  pub small : q.size ≤ 2 ^ 63
  pub divides : q.size ∣ word
  pub fits : length xs ≤ q.size
  pub written : q.write_index ≡ (r + length xs) % word
  pub taken : q.read_index ≡ r % word
  pub filled : Filled q.queue q.size r xs
  pub free : Free q.queue q.size (r + length xs) (q.size - length xs)

pub Free-head :
    (f : ℕ → Slot) (size w n : ℕ) → 0 < n → Free f size w n → (f (w % size)).sequence ≡ w % word
Free-head f size w zero h v = absurd (omega arith)
Free-head f size w (suc n) h v = v.0

Free-tail : (f : ℕ → Slot) (size w n : ℕ) → 0 < n → Free f size w n → Free f size (suc w) (n - 1)
Free-tail f size w zero h v = absurd (omega arith)
Free-tail f size w (suc n) h v = rw (sub-one (suc n)) v.1

-- A full ring has a published slot at the write position.
full_slot :
    (f : ℕ → Slot) (size r : ℕ) (xs : List ℕ)
    → length xs ≡ size
    → 0 < size
    → Filled f size r xs
    → (f ((r + length xs) % size)).sequence ≡ suc r % word
full_slot f size r [] e h v = absurd (omega arith)
full_slot f size r (x ∷ xs) e h v = rw (e, add-mod_right r size) (ap (λ (s : Slot). s.sequence) v.0)

pub diff_self : (x : ℕ) → x < word → diff x x ≡ 0
unfolding diff
diff_self x h = omega arith

diff-accepts :
    (r : ℕ) (xs : List ℕ) (q : MailQueue)
    → IsRing r xs q
    → length xs < q.size
    → diff (q.queue (q.write_index % q.size)).sequence q.write_index ≡ 0
diff-accepts r xs q v h =
    let head = Free-head q.queue q.size (r + length xs) (q.size - length xs) (omega arith) v.free in
    let at_slot = slot_of q.size (r + length xs) q.write_index v.divides v.written in
    rw (at_slot, head, ← v.written) (diff_self q.write_index (omega arith))

diff-refuses :
    (r : ℕ) (xs : List ℕ) (q : MailQueue)
    → IsRing r xs q
    → length xs ≡ q.size
    → diff (q.queue (q.write_index % q.size)).sequence q.write_index ≡ word - (q.size - 1)
diff-refuses r xs q v h =
    let at_slot = slot_of q.size (r + length xs) q.write_index v.divides v.written in
    let s = full_slot q.queue q.size r xs h (omega arith) v.filled in
    let w : q.write_index ≡ (suc r + (q.size - 1)) % word = omega arith in
    rw (at_slot, s, w) (diff_behind (suc r) (q.size - 1) (omega arith) (omega arith))

pub update_self : (f : ℕ → Slot) (i : ℕ) (s : Slot) → update f i s i ≡ s
unfolding update
update_self f i s = ground (arith, ==-refl i)

unfoldable pub after_enqueue : ℕ → MailQueue → MailQueue
after_enqueue m q = record q {
  write_index = add q.write_index 1;
  queue =
      update q.queue (q.write_index % q.size)
        (record { sequence = add q.write_index 1; message = m });
}

pub after_enqueue-IsRing :
    (r m : ℕ) (xs : List ℕ) (q : MailQueue)
    → IsRing r xs q
    → length xs < q.size
    → IsRing r (xs ++ m ∷ []) (after_enqueue m q)
unfolding after_enqueue add
after_enqueue-IsRing r m xs q v h =
    let n = length xs in
    let at_slot = slot_of q.size (r + n) q.write_index v.divides v.written in
    let len = length-append xs (m ∷ []) in
    let le_self : r + n ≤ r + n = omega arith in
    let next : r + length (xs ++ m ∷ []) ≡ suc (r + n) = omega arith in
    let left : q.size - length (xs ++ m ∷ []) ≡ q.size - n - 1 = omega arith in
    let s : Slot = record { sequence = (q.write_index + 1) % word; message = m } in
    let number : (q.write_index + 1) % word ≡ suc (r + n) % word = omega (arith, v.written) in
    let same_slot : s ≡ record { sequence = suc (r + n) % word; message = m } =
      ap (λ (k : ℕ). record { sequence = k; message = m }) number in
    record {
      big = v.big;
      small = v.small;
      divides = v.divides;
      fits = omega arith;
      written = omega (arith, v.written);
      taken = v.taken;
      filled = rw at_slot (
          Filled-snoc (update q.queue ((r + n) % q.size) s) q.size r xs m
            (Filled-update q.queue q.size s (r + n) r xs le_self (omega arith) v.filled)
            (update_self q.queue ((r + n) % q.size) s ∙ same_slot));
      free =
          rw (at_slot, next, left)
            (Free-update q.queue q.size s (r + n) (suc (r + n)) (q.size - n - 1) (omega arith)
              (omega arith) (Free-tail q.queue q.size (r + n) (q.size - n) (omega arith) v.free));
    }

pub accepts :
    (r m : ℕ) (xs : List ℕ) (q : MailQueue)
    → IsRing r xs q
    → length xs < q.size
    → try_enqueue m q ≡ some (after_enqueue m q, true)
unfolding try_enqueue is_negative after_enqueue
accepts r m xs q v h = rw (diff-accepts r xs q v h) refl

pub refuses :
    (r m : ℕ) (xs : List ℕ) (q : MailQueue)
    → IsRing r xs q
    → length xs ≡ q.size
    → try_enqueue m q ≡ some (q, false)
unfolding try_enqueue is_negative
refuses r m xs q v h = rw (diff-refuses r xs q v h) (ground arith)
