-- ===== src/GlobalQueue/Invariant.antt =====
-- What holds of the queue and its workers between any two steps.
use acnet.Prelude.{ℕ, ◌+◌, ◌≤◌, ◌<◌, ◌≡◌, Bool, true, false, word, number_of, is_empty, ◌⊎◌}
use acnet.GlobalQueue.Workers.{
  Worker, working, searching, resuming, prepared, cancelling, parking, waiting, woken, gone,
  is_waiting, State,
}

-- Workers that `idle_threads_` counts, and workers that are going to look at the queue again.
abbrev pub is_idle : Worker → Bool
is_idle working = false
is_idle resuming = false
is_idle searching = false
is_idle (prepared e) = true
is_idle cancelling = true
is_idle (parking e) = true
is_idle (waiting e) = true
is_idle (woken e) = true
is_idle gone = false

abbrev pub is_awake : Worker → Bool
is_awake working = true
is_awake resuming = true
is_awake searching = true
is_awake (prepared e) = true
is_awake cancelling = true
is_awake (parking e) = true
is_awake (waiting e) = false
is_awake (woken e) = true
is_awake gone = false

-- A worker that has searched in vain has seen the queue empty at the epoch that it observed.
abbrev pub WorkerInv : Bool → ℕ → Worker → Type 0
WorkerInv empty raised (prepared e) = e ≤ raised
WorkerInv empty raised (parking e) = (e ≤ raised) × (e ≡ raised → empty ≡ true)
WorkerInv empty raised (waiting e) = (e ≤ raised) × (e ≡ raised → empty ≡ true)
WorkerInv empty raised (woken e) = (e ≤ raised) × (e ≡ raised → empty ≡ true)
WorkerInv empty raised _ = Unit {0}

pub record Inv (n : ℕ) (s : State) : Type 0 where
  pub bound : s.raised < word
  pub epoch : s.g.wake_epoch ≡ s.raised
  pub idle : s.g.idle_threads ≡ number_of is_idle n s.workers
  pub worker : (i : ℕ) → WorkerInv (is_empty s.g.queue) s.raised (s.workers i)
  pub present :
      (i : ℕ)
      → s.halted ≡ false
      → (is_awake (s.workers i) ≡ true) ⊎ (is_waiting (s.workers i) ≡ true)
  pub live :
      s.halted ≡ false → is_empty s.g.queue ≡ false → 0 < s.signals + number_of is_awake n s.workers
  pub stopped :
      s.g.stop_flag ≡ true → (s.signal_all ≡ true) ⊎ (number_of is_waiting n s.workers ≡ 0)
  pub outside : (i : ℕ) → n ≤ i → s.workers i ≡ working
