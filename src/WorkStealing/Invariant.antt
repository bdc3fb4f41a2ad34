-- ===== src/WorkStealing/Invariant.antt =====
-- What holds of the queue between any two accesses.
use acnet.Prelude.{ℕ, ◌+◌, ◌-◌, ◌^◌, ◌%◌, ◌≤◌, ◌<◌, ◌≡◌, List, word, increment, window, length}
use acnet.WorkStealing.{WorkStealingQueue}
use acnet.WorkStealing.Threads.{
  State, Owner, idle, pushing, stored, popping, racing, restoring, Thief, resting, read_top, seen,
  ready,
}

-- The position behind the youngest handle: while the owner is in `pop`, `bottom_` is one lower.
abbrev pub limit : Owner → ℕ → ℕ
limit idle b = b
limit (pushing x) b = b
limit (stored x) b = b
limit popping b = increment b
limit racing b = increment b
limit restoring b = increment b

abbrev pub end : State → ℕ
end s = limit s.owner s.q.bottom

-- The handles in the queue, oldest first.
abbrev pub contents : ℕ → State → List ℕ
contents N s = window s.q.queue N s.q.top (end s - s.q.top)

abbrev pub OwnerInv : ℕ → WorkStealingQueue → Owner → Type 0
OwnerInv N q idle = Unit {0}
OwnerInv N q (pushing x) = q.bottom < q.top + N
OwnerInv N q (stored x) = (q.bottom < q.top + N) × (q.queue (q.bottom % N) ≡ x)
OwnerInv N q popping = q.bottom < word
OwnerInv N q racing = (q.bottom < 2 ^ 63) × (q.bottom ≤ q.top)
OwnerInv N q restoring = (q.bottom < word) × (increment q.bottom ≡ q.top)

-- While `top_` is what the thief has loaded, the slot is in the queue and has not changed.
abbrev pub ThiefInv : ℕ → WorkStealingQueue → ℕ → Thief → Type 0
ThiefInv N q e resting = Unit {0}
ThiefInv N q e (read_top tp) = tp ≤ q.top
ThiefInv N q e (seen tp) = (tp ≤ q.top) × (tp ≡ q.top → tp < e)
ThiefInv N q e (ready tp ptr) =
    (tp ≤ q.top) × (tp ≡ q.top → tp < e) × (tp ≡ q.top → q.queue (tp % N) ≡ ptr)

pub record Inv (N : ℕ) (s : State) : Type 0 where
  pub bound : length s.pushed < 2 ^ 63
  pub ordered : s.q.top ≤ end s
  pub fits : end s ≤ s.q.top + N
  pub few : end s ≤ length s.pushed
  pub own : OwnerInv N s.q s.owner
  pub thief : (i : ℕ) → ThiefInv N s.q (end s) (s.thieves i)
