-- ===== src/SpscQueue.antt =====
-- include/queue.h, `SPSCQueue`: a ring of `N` slots between one producer and one consumer, run without
-- interference. The indices count modulo 2 ^ 64; `N` is a power of two, so `index & kMask` is the
-- remainder by it. The program does not use this queue.
pub mod Refine
use acnet.Prelude.{
  ℕ, ◌%◌, ◌==◌, if◌then◌else◌, Bool, true, false, Option, none, some, increment, update_at,
}

pub record SpscQueue {ℓ} (T : Type ℓ) : Type ℓ where
  pub write_index : ℕ
  pub read_index : ℕ
  pub queue : ℕ → T

-- The slots start with some content of theirs.
unfoldable pub new_spsc_queue {ℓ} : {T : Type ℓ} → (ℕ → T) → SpscQueue T
new_spsc_queue content = record { write_index = 0; read_index = 0; queue = content }

module _ {ℓ} {T : Type ℓ} (N : ℕ) where
  unfoldable pub try_enqueue : T → SpscQueue T → SpscQueue T × Bool
  try_enqueue item q = if increment q.write_index % N == q.read_index % N then (q, false) else (
    record q {
      queue = update_at q.queue (q.write_index % N) item;
      write_index = increment q.write_index;
    },
    true,
  )

  unfoldable pub try_dequeue : SpscQueue T → SpscQueue T × Option T
  try_dequeue q =
      if q.read_index == q.write_index
      then (q, none)
      else (record q { read_index = increment q.read_index }, some (q.queue (q.read_index % N)))
