-- ===== src/EventBus/Sharing.antt =====
-- A published message has one reference for each mailbox place that holds it.
use acnet.Prelude.{
  count, ℕ, suc, ◌^◌, ◌<◌, ◌==◌, ◌≡◌, refl, ap, Bool, false, none, some, List, [], ◌∷◌, arith,
  length, Option-cases, inl, inr, subst,
}
use acnet.Message.{EventType}
use acnet.MessageHeap.{set_ref}
use acnet.MailBox.{World, at, send}
use acnet.MailBox.Counting.{
  held, Owes, release-Owes, release_other, send_to-Owes, send_to-Owes_other, at_lt, length-send,
}
use acnet.EventBus.Routing.{IsRouting, nil, cons}
use acnet.EventBus.{EventBus, Local, Routes, subscribers, refresh, send_each, publish}

-- All places of the program's mailboxes.
abbrev pub AreMailBoxes : List ℕ → World → Type 0
AreMailBoxes [] w = Unit {0}
AreMailBoxes (b ∷ bs) w = (b < length w.boxes) × AreMailBoxes bs w

AreMailBoxes-same :
    (bs : List ℕ) (v w : World)
    → length w.boxes ≡ length v.boxes
    → AreMailBoxes bs v
    → AreMailBoxes bs w
AreMailBoxes-same [] v w e h = tt
AreMailBoxes-same (b ∷ bs) v w e h = (omega (arith, h.0), AreMailBoxes-same bs v w e h.1)

send-Owes :
    (done : ℕ → Bool) (i p owed : ℕ) (w : World)
    → (p == 0) ≡ false
    → i < length w.boxes
    → Owes p (suc owed) w
    → Owes p owed (send done i p w)
unfolding send
send-Owes done i p owed w z h v =
    let (b, e) = at_lt i w.boxes h in rw (e, send) (send_to-Owes done i p owed b w z e v)

send_each-Owes :
    (done : ℕ → Bool) (bs : List ℕ) (p : ℕ) (w : World)
    → (p == 0) ≡ false
    → AreMailBoxes bs w
    → Owes p (length bs) w
    → Owes p 0 (send_each done bs p w)
unfolding send_each
send_each-Owes done [] p w z h v = v
send_each-Owes done (b ∷ bs) p w z h v =
    send_each-Owes done bs p (send done b p w) z
      (AreMailBoxes-same bs w (send done b p w) (length-send done b p w) h.1)
      (send-Owes done b p (length bs) w z h.0 v)

-- The mailboxes that subscribe to a type, as often as they do.
abbrev pub targets : EventType → Routes → List ℕ
targets t r = elim (subscribers t r) [ none ↦ [] | some bs ↦ bs ]

IsRouting-subscribers :
    (t : EventType) (r : Routes) (bs : List ℕ)
    → IsRouting r
    → subscribers t r ≡ some bs
    → 0 < length bs
unfolding subscribers
IsRouting-subscribers t [] bs nil h = ground arith
IsRouting-subscribers t ((u, cs) ∷ r) bs (cons e n v) h =
    ground (arith, IsRouting-subscribers t r bs v)

-- A fresh message with one reference is published by a table in which each type stands once and no
-- entry is empty, and the mailboxes that subscribe to its type are mailboxes of the program, fewer
-- than 2 ^ 64, each as often as it subscribes. Then the message's count is the number of places in
-- the mailboxes that hold it, and it has been deleted, once, exactly when there is no such place:
-- when nobody subscribes to its type, or all subscribers' queues are full.
pub publish-Owes :
    (done : ℕ → Bool) (bus : EventBus) (t : EventType) (p : ℕ) (loc : Local) (w : World)
    → (p == 0) ≡ false
    → w.heap.ref p ≡ 1
    → held p w.boxes ≡ 0
    → count p w.heap.deleted ≡ 0
    → IsRouting (refresh bus loc).local_event_bus
    → AreMailBoxes (targets t (refresh bus loc).local_event_bus) w
    → length (targets t (refresh bus loc).local_event_bus) < 2 ^ 64
    → Owes p 0 (publish done bus t p loc w).1
unfolding publish set_ref
publish-Owes done bus t p loc w z r h g v a c =
    elim (Option-cases (subscribers t (refresh bus loc).local_event_bus)) [
      | inl e ↦
          rw (e, publish)
            (release-Owes p 0 w z
              (record { counted = omega arith; small = omega arith; gone = ground arith }))
      | inr (bs, e) ↦
          let b = IsRouting-subscribers t (refresh bus loc).local_event_bus bs v e in
          let to : targets t (refresh bus loc).local_event_bus ≡ bs =
            ap (λ o. elim o [ none ↦ [] | some bs ↦ bs ]) e in
          let few : length bs < 2 ^ 64 = subst (λ xs. length xs < 2 ^ 64) to c in
          rw (e, publish)
            (send_each-Owes done bs p _ z
              (AreMailBoxes-same bs w _ refl (subst (λ xs. AreMailBoxes xs w) to a))
              (record { counted = ground arith; small = ground arith; gone = ground arith }))
    ]

send-Owes_other :
    (done : ℕ → Bool) (i p q owed : ℕ) (w : World)
    → (p == q) ≡ false
    → Owes q owed w
    → Owes q owed (send done i p w)
unfolding send
send-Owes_other done i p q owed w n v = elim (Option-cases (at i w.boxes)) [
  | inl e ↦ rw (e, send) v
  | inr (b, e) ↦ rw (e, send) (send_to-Owes_other done i p q owed b w n e v)
]

send_each-Owes_other :
    (done : ℕ → Bool) (bs : List ℕ) (p q owed : ℕ) (w : World)
    → (p == q) ≡ false
    → Owes q owed w
    → Owes q owed (send_each done bs p w)
unfolding send_each
send_each-Owes_other done [] p q owed w n v = v
send_each-Owes_other done (b ∷ bs) p q owed w n v =
    send_each-Owes_other done bs p q owed _ n (send-Owes_other done b p q owed w n v)

set_ref_other :
    (p q k owed : ℕ) (w : World)
    → (p == q) ≡ false
    → Owes q owed w
    → Owes q owed (record w { heap = set_ref p k w.heap })
unfolding set_ref
set_ref_other p q k owed w n v = record {
  counted = ground (arith, v.counted);
  small = ground (arith, v.small);
  gone = ground (arith, v.gone);
}

-- Publishing a message leaves every other message with the references that its places in the
-- mailboxes ask for, and deletes none that still has one.
pub publish-Owes_other :
    (done : ℕ → Bool) (bus : EventBus) (t : EventType) (p q owed : ℕ) (loc : Local) (w : World)
    → (p == q) ≡ false
    → Owes q owed w
    → Owes q owed (publish done bus t p loc w).1
unfolding publish
publish-Owes_other done bus t p q owed loc w n v =
    elim (Option-cases (subscribers t (refresh bus loc).local_event_bus)) [
      | inl e ↦ rw (e, publish) (release_other p q owed w n v)
      | inr (bs, e) ↦
          rw (e, publish)
            (send_each-Owes_other done bs p q owed _ n (set_ref_other p q (length bs) owed w n v))
    ]
