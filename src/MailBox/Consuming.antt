-- ===== src/MailBox/Consuming.antt =====
-- Receiving a message and releasing it, and destroying a mailbox, against the message's count.
use acnet.Prelude.{
  list_cases, count, ℕ, suc, ◌+◌, ◌==◌, ◌≡◌, refl, false, some, List, [], ◌∷◌, arith, Bool-cases,
  ==-to_eq, inl, inr, subst,
}
use acnet.MailQueue.Fifo.{pop}
use acnet.MessageHeap.{event_message_release}
use acnet.MailBox.{MailBox, World, at, put, try_receive, drain, destroy}
use acnet.MailBox.Counting.{held-put, Owes, move-Owes, release-Owes, release_other}

-- What is received was the oldest.
count-try_receive :
    (b b' : MailBox) (p : ℕ)
    → try_receive b ≡ (b', some p)
    → count p b.mailbox ≡ suc (count p b'.mailbox)
unfolding try_receive pop
count-try_receive b b' p h = elim (list_cases b.mailbox) [
  | inl e ↦ absurd (ground arith)
  | inr (x, ys, e) ↦ ground arith
]

-- A consumer takes the message `p` from the mailbox at the place `i` and releases it: the count is
-- again the number of places that hold it, and the last release deletes it.
pub try_receive-Owes :
    (i p owed : ℕ) (b b' : MailBox) (w : World)
    → (p == 0) ≡ false
    → at i w.boxes ≡ some b
    → try_receive b ≡ (b', some p)
    → Owes p owed w
    → Owes p owed (record w { boxes = put i b' w.boxes; heap = event_message_release p w.heap })
unfolding try_receive pop
try_receive-Owes i p owed b b' w z e h v =
    release-Owes p owed (record w { boxes = put i b' w.boxes }) z
      (move-Owes p owed (suc owed) w _ refl
        (omega (arith, held-put p i b b' w.boxes e, count-try_receive b b' p h)) v)

drain-Owes :
    (ps : List ℕ) (p owed : ℕ) (w : World)
    → (p == 0) ≡ false
    → Owes p (count p ps + owed) w
    → Owes p owed (record w { heap = drain ps w.heap })
unfolding drain
drain-Owes [] p owed w z v = move-Owes p (count p [] + owed) owed w _ refl (omega arith) v
drain-Owes (q ∷ ps) p owed w z v = elim (Bool-cases (p == q)) [
  | inl e ↦
      drain-Owes ps p owed (record w { heap = event_message_release q w.heap }) z
        (subst
          (λ a. Owes p (count p ps + owed) (record w { heap = event_message_release a w.heap }))
          (==-to_eq p q e)
          (release-Owes p (count p ps + owed) w z (
            move-Owes p (count p (q ∷ ps) + owed) (suc (count p ps + owed)) w w refl (ground arith)
              v)))
  | inr e ↦
      drain-Owes ps p owed (record w { heap = event_message_release q w.heap }) z
        (release_other q p (count p ps + owed) w (ground arith)
          (move-Owes p (count p (q ∷ ps) + owed) (count p ps + owed) w w refl (ground arith) v))
]

-- Destroying the mailbox at the place `i` takes its messages away and releases each: the count of
-- every message is again the number of places that hold it, and the last release deletes it.
pub destroy-Owes :
    (i p owed : ℕ) (b : MailBox) (w : World)
    → (p == 0) ≡ false
    → at i w.boxes ≡ some b
    → Owes p owed w
    → Owes p owed
        (record w { boxes = put i (record b { mailbox = [] }) w.boxes; heap = destroy b w.heap })
unfolding destroy
destroy-Owes i p owed b w z e v =
    let emptied : MailBox = record b { mailbox = [] } in
    drain-Owes b.mailbox p owed (record w { boxes = put i emptied w.boxes }) z
      (move-Owes p owed (count p b.mailbox + owed) w _ refl
        (omega (arith, held-put p i b emptied w.boxes e)) v)
