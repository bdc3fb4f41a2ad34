-- ===== src/Examples/Queues.antt =====
-- The theorems about the queues at concrete states.
use native.Mathlib.Nat.{dvd_of_mod-eq-zero}
use acnet.SpscQueue.{new_spsc_queue}
use acnet.SpscQueue.Refine
use acnet.SpscQueue.Refine.{bounded_run, spsc_queue_refines}
use acnet.Prelude.{◌≡◌, refl, some, [], ◌∷◌, ℕ, ◌≤◌, ◌<◌, arith, List}
use acnet.MailQueue.{mail_queue, bit_ceil}
use acnet.MailQueue.Fifo
use acnet.MailQueue.Fifo.{Op}
use acnet.MailQueue.Refine.{run}
use acnet.MailQueue.Construct.{mail_queue_refines}

abbrev calls : List Op
calls = Op.enqueue 8 ∷ Op.enqueue 9 ∷ Op.enqueue 7 ∷ Op.dequeue ∷ Op.can_dequeue ∷ []

mail_queue_refines_example :
    (run (mail_queue 2) calls ≡ some (Fifo.run (bit_ceil 2) [] calls))
    × (2 ≤ bit_ceil 2)
    × (bit_ceil 2 < 4)
mail_queue_refines_example = mail_queue_refines 2 calls (omega arith) (omega arith)

abbrev items : List (Refine.Op ℕ)
items = Refine.enqueue 8 ∷ Refine.enqueue 9 ∷ Refine.dequeue ∷ Refine.dequeue ∷ Refine.dequeue ∷ []

spsc_queue_refines_example : Refine.run 2 (new_spsc_queue (λ i. 0)) items ≡ bounded_run 1 [] items
spsc_queue_refines_example =
    spsc_queue_refines 2 (λ i. 0) items (omega arith) (omega arith) (dvd_of_mod-eq-zero 2 refl)
