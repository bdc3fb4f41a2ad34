-- ===== src/MailBox/Counting.antt =====
-- How often a message stands in the mailboxes, before and after `Send`, against its count.
use acnet.Prelude.{
  count, count-append, ℕ, zero, suc, ◌+◌, ◌^◌, ◌<◌, ◌==◌, ◌≡◌, refl, if◌then◌else◌, Bool, true,
  false, some, List, [], ◌∷◌, ◌++◌, arith, length, Bool-cases, Option-cases, inl, inr, ap, sym, ◌∙◌,
  not, ◌&&◌,
}
use acnet.MailQueue.Fifo.{push}
use acnet.MessageHeap.{event_message_release, set_ref}
use acnet.MailBox.{MailBox, World, at, put, send, send_to, mail_box_size}

-- How often a message stands in mailboxes.
abbrev pub held : ℕ → List MailBox → ℕ
held p [] = 0
held p (b ∷ bs) = count p b.mailbox + held p bs

pub held-put :
    (p i : ℕ) (b c : MailBox) (bs : List MailBox)
    → at i bs ≡ some b
    → held p (put i c bs) + count p b.mailbox ≡ held p bs + count p c.mailbox
held-put p i b c [] h = ground arith
held-put p zero b c (x ∷ bs) h = ground arith
held-put p (suc i) b c (x ∷ bs) h = ground (arith, held-put p i b c bs h)

-- The mailboxes hold the message as often as it has references, but for `owed` more references, and
-- it is deleted, once, exactly when its last reference is gone.
pub record Owes (p owed : ℕ) (w : World) : Type 0 where
  pub counted : w.heap.ref p ≡ held p w.boxes + owed
  pub small : w.heap.ref p < 2 ^ 64
  pub gone : count p w.heap.deleted ≡ (if w.heap.ref p == 0 then 1 else 0)

pub release-Owes :
    (p owed : ℕ) (w : World)
    → (p == 0) ≡ false
    → Owes p (suc owed) w
    → Owes p owed (record w { heap = event_message_release p w.heap })
unfolding event_message_release set_ref
release-Owes p owed w z v = elim (Bool-cases (w.heap.ref p == 1)) [
  | inl e ↦ record {
    counted = ground (arith, v.counted, v.small);
    small = ground (arith, v.counted, v.small);
    gone = ground (arith, v.counted, v.small, v.gone);
  }
  | inr e ↦ record {
    counted = ground (arith, v.counted, v.small);
    small = ground (arith, v.counted, v.small);
    gone = ground (arith, v.counted, v.small, v.gone);
  }
]

pub length-put : (i : ℕ) (c : MailBox) (bs : List MailBox) → length (put i c bs) ≡ length bs
length-put i c [] = refl
length-put zero c (b ∷ bs) = refl
length-put (suc i) c (b ∷ bs) = ap suc (length-put i c bs)

pub at_lt : (i : ℕ) (bs : List MailBox) → i < length bs → (b : MailBox) × (at i bs ≡ some b)
at_lt i [] h = ground arith
at_lt zero (b ∷ bs) h = (b, refl)
at_lt (suc i) (b ∷ bs) h = at_lt i bs (omega arith)

-- Only the heap and the number of places matter.
pub move-Owes :
    (p owed owed' : ℕ) (v w : World)
    → w.heap ≡ v.heap
    → held p w.boxes + owed' ≡ held p v.boxes + owed
    → Owes p owed v
    → Owes p owed' w
move-Owes p owed owed' v w h e o = record {
  counted = ap (λ g. g.ref p) h ∙ (o.counted ∙ sym e);
  small = rw h o.small;
  gone = rw h o.gone;
}

count_last : (p : ℕ) (xs : List ℕ) → count p (xs ++ p ∷ []) ≡ suc (count p xs)
count_last p xs = ground (arith, count-append p xs (p ∷ []))

held-deposit :
    (p i owed : ℕ) (b : MailBox) (bs : List MailBox)
    → at i bs ≡ some b
    → held p (put i (record b { mailbox = b.mailbox ++ p ∷ []; scheduled = true }) bs) + owed
      ≡ held p bs + suc owed
held-deposit p i owed b bs e = omega (
  arith,
  held-put p i b (record b { mailbox = b.mailbox ++ p ∷ []; scheduled = true }) bs e,
  count_last p b.mailbox,
)

pub send_to-Owes :
    (done : ℕ → Bool) (i p owed : ℕ) (b : MailBox) (w : World)
    → (p == 0) ≡ false
    → at i w.boxes ≡ some b
    → Owes p (suc owed) w
    → Owes p owed (send_to done i b p w)
unfolding send_to push
send_to-Owes done i p owed b w z e v = elim (Bool-cases (length b.mailbox == 256)) [
  | inl full ↦ simp full (
      move-Owes p owed owed (record w { heap = event_message_release p w.heap }) _ refl
        (omega (arith, held-put p i b (record b { discarded_nr = suc b.discarded_nr }) w.boxes e))
        (release-Owes p owed w z v))
  | inr free ↦
      simp free
        (elim (Bool-cases (not b.scheduled && (not (b.consumer == 0) && not (done b.consumer)))) [
          | inl wakes ↦
              simp wakes
                (move-Owes p (suc owed) owed w _ refl (held-deposit p i owed b w.boxes e) v)
          | inr rests ↦
              simp rests
                (move-Owes p (suc owed) owed w _ refl (held-deposit p i owed b w.boxes e) v)
        ])
]

-- Nothing changes for another message.
pub release_other :
    (p q owed : ℕ) (w : World)
    → (p == q) ≡ false
    → Owes q owed w
    → Owes q owed (record w { heap = event_message_release p w.heap })
unfolding event_message_release set_ref
release_other p q owed w n v = elim (Bool-cases (w.heap.ref p == 1)) [
  | inl e ↦ record {
    counted = ground (arith, v.counted);
    small = ground (arith, v.small);
    gone = ground (arith, v.gone);
  }
  | inr e ↦ record {
    counted = ground (arith, v.counted);
    small = ground (arith, v.small);
    gone = ground (arith, v.gone);
  }
]

held-deposit_other :
    (p q i owed : ℕ) (b : MailBox) (bs : List MailBox)
    → (p == q) ≡ false
    → at i bs ≡ some b
    → held q (put i (record b { mailbox = b.mailbox ++ p ∷ []; scheduled = true }) bs) + owed
      ≡ held q bs + owed
held-deposit_other p q i owed b bs n e = ground (
  arith,
  held-put q i b (record b { mailbox = b.mailbox ++ p ∷ []; scheduled = true }) bs e,
  count-append q b.mailbox (p ∷ []),
)

pub send_to-Owes_other :
    (done : ℕ → Bool) (i p q owed : ℕ) (b : MailBox) (w : World)
    → (p == q) ≡ false
    → at i w.boxes ≡ some b
    → Owes q owed w
    → Owes q owed (send_to done i b p w)
unfolding send_to push
send_to-Owes_other done i p q owed b w n e v = elim (Bool-cases (length b.mailbox == 256)) [
  | inl full ↦ simp full (
      move-Owes q owed owed (record w { heap = event_message_release p w.heap }) _ refl
        (omega (arith, held-put q i b (record b { discarded_nr = suc b.discarded_nr }) w.boxes e))
        (release_other p q owed w n v))
  | inr free ↦
      simp free
        (elim (Bool-cases (not b.scheduled && (not (b.consumer == 0) && not (done b.consumer)))) [
          | inl wakes ↦
              simp wakes
                (move-Owes q owed owed w _ refl (held-deposit_other p q i owed b w.boxes n e) v)
          | inr rests ↦
              simp rests
                (move-Owes q owed owed w _ refl (held-deposit_other p q i owed b w.boxes n e) v)
        ])
]

length-send_to :
    (done : ℕ → Bool) (i p : ℕ) (b : MailBox) (w : World)
    → length (send_to done i b p w).boxes ≡ length w.boxes
unfolding send_to
length-send_to done i p b w =
    let free =
      length-put i (record b { mailbox = (push mail_box_size b.mailbox p).0; scheduled = true })
        w.boxes in
    let full = length-put i (record b { discarded_nr = suc b.discarded_nr }) w.boxes in
    ground (arith, free, full)

pub length-send :
    (done : ℕ → Bool) (i p : ℕ) (w : World) → length (send done i p w).boxes ≡ length w.boxes
unfolding send
length-send done i p w = elim (Option-cases (at i w.boxes)) [
  | inl e ↦ rw (e, send) refl
  | inr (b, e) ↦ rw (e, send) (length-send_to done i p b w)
]
