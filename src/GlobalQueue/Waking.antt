-- ===== src/GlobalQueue/Waking.antt =====
-- What the invariant says of one worker.
use acnet.Prelude.{update_at-all, ℕ, suc, ◌≡◌, refl, Bool, true, false, arith, ◌⊎◌, update_at}
use acnet.GlobalQueue.Workers.{
  Worker, working, searching, resuming, prepared, cancelling, parking, waiting, woken, gone,
  is_waiting, wake,
}
use acnet.GlobalQueue.Invariant.{is_idle, is_awake, WorkerInv}

pub waiting_idle : (w : Worker) → is_waiting w ≡ true → is_idle w ≡ true
waiting_idle (waiting e) h = refl
waiting_idle working h = absurd (ground arith)
waiting_idle resuming h = absurd (ground arith)
waiting_idle searching h = absurd (ground arith)
waiting_idle (prepared e) h = refl
waiting_idle cancelling h = refl
waiting_idle (parking e) h = refl
waiting_idle (woken e) h = refl
waiting_idle gone h = absurd (ground arith)

-- A worker that is parked is counted, so an epoch that is not raised leaves none.
pub WorkerInv-raise :
    (empty empty' : Bool) (raised : ℕ) (w : Worker)
    → WorkerInv empty raised w
    → WorkerInv empty' (suc raised) w
WorkerInv-raise empty empty' raised working v = tt
WorkerInv-raise empty empty' raised resuming v = tt
WorkerInv-raise empty empty' raised searching v = tt
WorkerInv-raise empty empty' raised (prepared e) v = omega arith
WorkerInv-raise empty empty' raised cancelling v = tt
WorkerInv-raise empty empty' raised (parking e) v =
    (omega (arith, v.0), λ h. absurd (omega (arith, v.0)))
WorkerInv-raise empty empty' raised (waiting e) v =
    (omega (arith, v.0), λ h. absurd (omega (arith, v.0)))
WorkerInv-raise empty empty' raised (woken e) v =
    (omega (arith, v.0), λ h. absurd (omega (arith, v.0)))
WorkerInv-raise empty empty' raised gone v = tt

-- The queue stays empty where it was, or the worker is not idle.
pub WorkerInv-keep :
    (empty empty' : Bool) (raised : ℕ) (w : Worker)
    → (is_idle w ≡ true → empty ≡ true → empty' ≡ true)
    → WorkerInv empty raised w
    → WorkerInv empty' raised w
WorkerInv-keep empty empty' raised working h v = tt
WorkerInv-keep empty empty' raised resuming h v = tt
WorkerInv-keep empty empty' raised searching h v = tt
WorkerInv-keep empty empty' raised (prepared e) h v = v
WorkerInv-keep empty empty' raised cancelling h v = tt
WorkerInv-keep empty empty' raised (parking e) h v = (v.0, λ k. h refl (v.1 k))
WorkerInv-keep empty empty' raised (waiting e) h v = (v.0, λ k. h refl (v.1 k))
WorkerInv-keep empty empty' raised (woken e) h v = (v.0, λ k. h refl (v.1 k))
WorkerInv-keep empty empty' raised gone h v = tt

pub WorkerInv-update :
    (empty : Bool) (raised : ℕ) (f : ℕ → Worker) (i : ℕ) (b : Worker)
    → ((j : ℕ) → WorkerInv empty raised (f j))
    → WorkerInv empty raised b
    → (j : ℕ) → WorkerInv empty raised (update_at f i b j)
WorkerInv-update empty raised f i b h k =
    update_at-all (λ j. WorkerInv empty raised) f i b k (λ j d. h j)

pub wake_idle : (w : Worker) → is_idle (wake w) ≡ is_idle w
wake_idle working = refl
wake_idle resuming = refl
wake_idle searching = refl
wake_idle (prepared e) = refl
wake_idle cancelling = refl
wake_idle (parking e) = refl
wake_idle (waiting e) = refl
wake_idle (woken e) = refl
wake_idle gone = refl

pub wake_not_waiting : (w : Worker) → is_waiting (wake w) ≡ false
wake_not_waiting working = refl
wake_not_waiting resuming = refl
wake_not_waiting searching = refl
wake_not_waiting (prepared e) = refl
wake_not_waiting cancelling = refl
wake_not_waiting (parking e) = refl
wake_not_waiting (waiting e) = refl
wake_not_waiting (woken e) = refl
wake_not_waiting gone = refl

pub wake_awake :
    (w : Worker) → (is_awake w ≡ true) ⊎ (is_waiting w ≡ true) → is_awake (wake w) ≡ true
wake_awake working h = refl
wake_awake resuming h = refl
wake_awake searching h = refl
wake_awake (prepared e) h = refl
wake_awake cancelling h = refl
wake_awake (parking e) h = refl
wake_awake (waiting e) h = refl
wake_awake (woken e) h = refl
wake_awake gone h = ground arith

pub WorkerInv-wake :
    (empty : Bool) (raised : ℕ) (w : Worker)
    → WorkerInv empty raised w
    → WorkerInv empty raised (wake w)
WorkerInv-wake empty raised working v = v
WorkerInv-wake empty raised resuming v = v
WorkerInv-wake empty raised searching v = v
WorkerInv-wake empty raised (prepared e) v = v
WorkerInv-wake empty raised cancelling v = v
WorkerInv-wake empty raised (parking e) v = v
WorkerInv-wake empty raised (waiting e) v = v
WorkerInv-wake empty raised (woken e) v = v
WorkerInv-wake empty raised gone v = v
