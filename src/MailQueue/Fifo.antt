-- ===== src/MailQueue/Fifo.antt =====
-- What a mail queue promises: a first-in first-out queue of at most `cap` messages. The operations
-- are those of include/queue.h, `MailQueue`; a reply is what the call returns.
use acnet.Prelude.{
  ℕ, ◌==◌, if◌then◌else◌, Bool, true, false, not, Option, none, some, List, [], ◌∷◌, ◌++◌, length,
  is_empty,
}

pub data Op : Type 0 where
  enqueue : ℕ → Op
  dequeue : Op
  can_dequeue : Op

pub data Reply : Type 0 where
  accepted : Bool → Reply
  received : Option ℕ → Reply
  ready : Bool → Reply

unfoldable pub pop : List ℕ → List ℕ × Option ℕ
pop [] = ([], none)
pop (x ∷ xs) = (xs, some x)

module _ (cap : ℕ) where
  unfoldable pub push : List ℕ → ℕ → List ℕ × Bool
  push xs x = if length xs == cap then (xs, false) else (xs ++ x ∷ [], true)

  unfoldable pub step : Op → List ℕ → List ℕ × Reply
  unfolding push pop
  step (enqueue x) xs = let (ys, done) = push xs x in (ys, accepted done)
  step dequeue xs = let (ys, out) = pop xs in (ys, received out)
  step can_dequeue xs = (xs, ready (not (is_empty xs)))

  unfoldable pub run : List ℕ → List Op → List Reply
  run xs [] = []
  run xs (op ∷ ops) = let (ys, reply) = step op xs in reply ∷ run ys ops
