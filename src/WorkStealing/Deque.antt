-- ===== src/WorkStealing/Deque.antt =====
-- What a work-stealing queue promises: a double-ended queue of at most `cap` handles. The owner adds
-- and takes at one end, thieves take at the other.
use acnet.Prelude.{
  ℕ, leb, if◌then◌else◌, Bool, true, false, Option, none, some, List, [], ◌∷◌, ◌++◌, length, ◌≡◌,
  refl, arith,
}

-- The list without its last element, and that element.
unfoldable pub take_last : List ℕ → List ℕ × Option ℕ
take_last [] = ([], none)
take_last (x ∷ []) = ([], some x)
take_last (x ∷ y ∷ ys) = let (rest, out) = take_last (y ∷ ys) in (x ∷ rest, out)

unfoldable pub take_first : List ℕ → List ℕ × Option ℕ
take_first [] = ([], none)
take_first (x ∷ xs) = (xs, some x)

-- The calls, and what they answer.
pub data Op : Type 0 where
  push : ℕ → Op
  pop : Op
  steal : Op
  approx_size : Op

pub data Reply : Type 0 where
  accepted : Bool → Reply
  taken : Option ℕ → Reply
  measured : ℕ → Reply

module _ (cap : ℕ) where
  unfoldable pub step : Op → List ℕ → List ℕ × Reply
  unfolding take_last take_first
  step (push x) xs =
      if leb cap (length xs) then (xs, accepted false) else (xs ++ x ∷ [], accepted true)
  step pop xs = let (ys, out) = take_last xs in (ys, taken out)
  step steal xs = let (ys, out) = take_first xs in (ys, taken out)
  step approx_size xs = (xs, measured (length xs))

  unfoldable pub run : List ℕ → List Op → List Reply
  run xs [] = []
  run xs (op ∷ ops) = let (ys, r) = step op xs in r ∷ run ys ops

pub take_last-snoc : (xs : List ℕ) (x : ℕ) → take_last (xs ++ x ∷ []) ≡ (xs, some x)
unfolding take_last
take_last-snoc [] x = refl
take_last-snoc (y ∷ []) x = refl
take_last-snoc (y ∷ z ∷ zs) x = ground (arith, take_last-snoc (z ∷ zs) x)
