-- ===== src/MailQueue/Ring.antt =====
-- The ring of `MailQueue` as a window of filled slots followed by a window of free ones, for
-- positions that count on without wrapping.
use native.Mathlib.Nat.{add-zero}
use acnet.Prelude.{
  mod_ne, word, ℕ, zero, suc, ◌+◌, ◌-◌, ◌%◌, ◌≤◌, ◌<◌, ◌≡◌, List, [], ◌∷◌, ◌++◌, arith, length,
}
use acnet.MailQueue.{Slot, diff, update}

-- The slots of the positions `r`, `r + 1`, …: published, with these messages.
abbrev pub Filled : (ℕ → Slot) → ℕ → ℕ → List ℕ → Type 0
Filled f size r [] = Unit {0}
Filled f size r (x ∷ xs) =
    (f (r % size) ≡ record { sequence = suc r % word; message = x }) × Filled f size (suc r) xs

-- The slots of the `n` positions from `w` on: free for the producer that gets the position.
abbrev pub Free : (ℕ → Slot) → ℕ → ℕ → ℕ → Type 0
Free f size w zero = Unit {0}
Free f size w (suc n) = ((f (w % size)).sequence ≡ w % word) × Free f size (suc w) n

pub diff_ahead : (b t : ℕ) → t < word → diff ((b + t) % word) (b % word) ≡ t
unfolding diff
diff_ahead b t h = omega arith

pub diff_behind : (a t : ℕ) → 0 < t → t ≤ word → diff (a % word) ((a + t) % word) ≡ word - t
unfolding diff
diff_behind a t h k = omega arith

add_shift : (a n : ℕ) → a + suc n ≡ suc a + n
add_shift a n = omega arith

module _ (f : ℕ → Slot) (size : ℕ) (s : Slot) where
  pub Filled-update :
      (w r : ℕ) (xs : List ℕ)
      → r + length xs ≤ w
      → w < r + size
      → Filled f size r xs
      → Filled (update f (w % size) s) size r xs
  unfolding update
  Filled-update w r [] h k v = tt
  Filled-update w r (x ∷ xs) h k v = (
    ground (arith, v.0, mod_ne size r w (omega arith) k),
    Filled-update w (suc r) xs (omega arith) (omega arith) v.1,
  )

  pub Free-update :
      (p w n : ℕ)
      → p < w
      → w + n ≤ p + size
      → Free f size w n
      → Free (update f (p % size) s) size w n
  unfolding update
  Free-update p w zero h k v = tt
  Free-update p w (suc n) h k v = (
    ground (arith, v.0, mod_ne size p w h (omega arith)),
    Free-update p (suc w) n (omega arith) (omega arith) v.1,
  )

module _ (f : ℕ → Slot) (size : ℕ) where
  pub Filled-snoc :
      (r : ℕ) (xs : List ℕ) (x : ℕ)
      → Filled f size r xs
      → f ((r + length xs) % size) ≡ record { sequence = suc (r + length xs) % word; message = x }
      → Filled f size r (xs ++ x ∷ [])
  Filled-snoc r [] x v e = (rw (add-zero r) at e, tt)
  Filled-snoc r (y ∷ xs) x v e =
      (v.0, Filled-snoc (suc r) xs x v.1 (rw (add_shift r (length xs)) at e))

  pub Free-snoc :
      (w n : ℕ)
      → Free f size w n
      → (f ((w + n) % size)).sequence ≡ (w + n) % word
      → Free f size w (suc n)
  Free-snoc w zero v e = (rw (add-zero w) at e, tt)
  Free-snoc w (suc n) v e = (v.0, Free-snoc (suc w) n v.1 (rw (add_shift w n) at e))
