-- ===== src/EventBus/Delivered.antt =====
-- Where the copies of a published message go: what `Publish` of src/core/event_bus.cc does to one mailbox.
use acnet.Prelude.{
  count, count-append, ℕ, zero, suc, ◌+◌, ◌≤◌, ◌==◌, ◌≡◌, ◌≢◌, refl, if◌then◌else◌, Bool, true,
  none, some, List, [], ◌∷◌, ◌++◌, arith, length, length-append, Bool-cases, Option-cases, inl, inr,
  ==-refl, ==-to_eq, ap, sym, ◌∙◌, subst, not, ◌&&◌,
}
use acnet.Message.{EventType}
use acnet.MessageHeap.{set_ref}
use acnet.MailQueue.Fifo.{push}
use acnet.MailBox.{MailBox, World, at, put, send, send_to, mail_box_size}
use acnet.EventBus.{EventBus, Local, subscribers, refresh, send_each, publish}
use acnet.EventBus.Sharing.{targets}

at-put_same :
    (i : ℕ) (b c : MailBox) (bs : List MailBox) → at i bs ≡ some b → at i (put i c bs) ≡ some c
at-put_same i b c [] h = ground arith
at-put_same zero b c (x ∷ bs) h = refl
at-put_same (suc i) b c (x ∷ bs) h = at-put_same i b c bs h

at-put_other : (i j : ℕ) (c : MailBox) (bs : List MailBox) → j ≢ i → at j (put i c bs) ≡ at j bs
at-put_other i j c [] d = refl
at-put_other zero zero c (x ∷ bs) d = absurd (d refl)
at-put_other zero (suc j) c (x ∷ bs) d = refl
at-put_other (suc i) zero c (x ∷ bs) d = refl
at-put_other (suc i) (suc j) c (x ∷ bs) d = at-put_other i j c bs (λ e. d (ap suc e))

-- From `c` to `c'` a mailbox has been sent the message `p` for `k` times: each copy stands in its queue
-- or is counted as discarded, and none is discarded where the queue has room for all.
pub record HasGot (p k : ℕ) (c c' : MailBox) : Type 0 where
  pub copies : count p c'.mailbox + c'.discarded_nr ≡ count p c.mailbox + c.discarded_nr + k
  pub kept : length c.mailbox + k ≤ mail_box_size → c'.discarded_nr ≡ c.discarded_nr
  pub grown : length c'.mailbox ≤ length c.mailbox + k

HasGot-refl : (p : ℕ) (c : MailBox) → HasGot p 0 c c
HasGot-refl p c = record { copies = omega arith; kept = λ h. refl; grown = omega arith }

HasGot-trans :
    (p k l : ℕ) (a b c : MailBox) → HasGot p k a b → HasGot p l b c → HasGot p (k + l) a c
HasGot-trans p k l a b c v w = record {
  copies = omega (arith, v.copies, w.copies);
  kept = λ h. w.kept (omega (arith, v.grown)) ∙ v.kept (omega arith);
  grown = omega (arith, v.grown, w.grown);
}

-- What holds of the mailbox at the place `b`.
abbrev pub Gets : (p k b : ℕ) → MailBox → World → Type 0
Gets p k b c w = (c' : MailBox) × (at b w.boxes ≡ some c') × HasGot p k c c'

deposited :
    (p : ℕ) (c c' : MailBox)
    → c'.mailbox ≡ c.mailbox ++ p ∷ []
    → c'.discarded_nr ≡ c.discarded_nr
    → HasGot p 1 c c'
deposited p c c' e f = record {
  copies = ground (arith, ap (count p) e, count-append p c.mailbox (p ∷ []), ==-refl p, f);
  kept = λ h. f;
  grown = omega (arith, ap length e, length-append c.mailbox (p ∷ []));
}

discarded :
    (p : ℕ) (c : MailBox)
    → (length c.mailbox == 256) ≡ true
    → HasGot p 1 c (record c { discarded_nr = suc c.discarded_nr })
discarded p c e = record {
  copies = omega arith;
  kept = λ h. absurd (ground (arith, e, h));
  grown = omega arith;
}

module _ (done : ℕ → Bool) where
  send_to-same :
      (i p : ℕ) (c : MailBox) (w : World)
      → at i w.boxes ≡ some c
      → Gets p 1 i c (send_to done i c p w)
  unfolding send_to push
  send_to-same i p c w h = elim (Bool-cases (length c.mailbox == 256)) [
    | inl full ↦ simp full (
      record c { discarded_nr = suc c.discarded_nr },
      at-put_same i c _ w.boxes h,
      discarded p c full,
    )
    | inr free ↦
        let c' : MailBox = record c { mailbox = c.mailbox ++ p ∷ []; scheduled = true } in
        let v = deposited p c c' refl refl in
        simp free
          (elim (Bool-cases (not c.scheduled && (not (c.consumer == 0) && not (done c.consumer)))) [
            | inl wakes ↦ simp wakes (c', at-put_same i c c' w.boxes h, v)
            | inr rests ↦ simp rests (c', at-put_same i c c' w.boxes h, v)
          ])
  ]

  send_to-other :
      (i j p : ℕ) (c : MailBox) (w : World)
      → j ≢ i
      → at j (send_to done i c p w).boxes ≡ at j w.boxes
  unfolding send_to
  send_to-other i j p c w d =
      let free =
        at-put_other i j
          (record c { mailbox = (push mail_box_size c.mailbox p).0; scheduled = true }) w.boxes d in
      let full = at-put_other i j (record c { discarded_nr = suc c.discarded_nr }) w.boxes d in
      ground (arith, free, full)

  send-Gets :
      (i b p : ℕ) (c : MailBox) (w : World)
      → at b w.boxes ≡ some c
      → Gets p (if b == i then 1 else 0) b c (send done i p w)
  unfolding send
  send-Gets i b p c w h = elim (Bool-cases (b == i)) [
    | inl e ↦
        let q = ==-to_eq b i e in
        let k : at i w.boxes ≡ some c = subst (λ j. at j w.boxes ≡ some c) q h in
        rw (e, k, send)
          (subst (λ j. Gets p 1 j c (send_to done i c p w)) (sym q) (send_to-same i p c w k))
    | inr e ↦ elim (Option-cases (at i w.boxes)) [
      | inl n ↦ rw (e, n, send) (c, h, HasGot-refl p c)
      | inr (x, n) ↦
          rw (e, n, send)
            (c, send_to-other i b p x w (λ q. ground (arith, e, q)) ∙ h, HasGot-refl p c)
    ]
  ]

  send_each-Gets :
      (bs : List ℕ) (b p : ℕ) (c : MailBox) (w : World)
      → at b w.boxes ≡ some c
      → Gets p (count b bs) b c (send_each done bs p w)
  unfolding send_each
  send_each-Gets [] b p c w h = (c, h, HasGot-refl p c)
  send_each-Gets (i ∷ bs) b p c w h =
      let (x, k, v) = send-Gets i b p c w h in
      let (y, l, u) = send_each-Gets bs b p x (send done i p w) k in
      let e : count b (i ∷ bs) ≡ (if b == i then 1 else 0) + count b bs = ground arith in
      (y, l, subst (λ n. HasGot p n c y) (sym e) (HasGot-trans p _ (count b bs) c x y v u))

  -- `Publish` sends a copy to each mailbox as often as it stands in the list of the type.
  pub publish-Gets :
      (bus : EventBus) (t : EventType) (p b : ℕ) (loc : Local) (c : MailBox) (w : World)
      → at b w.boxes ≡ some c
      → Gets p
          (count b (targets t (refresh bus loc).local_event_bus))
          b
          c
          (publish done bus t p loc w).1
  unfolding publish
  publish-Gets bus t p b loc c w h =
      let r = (refresh bus loc).local_event_bus in
      elim (Option-cases (subscribers t r)) [
        | inl n ↦
            let e : count b (targets t r) ≡ 0 =
              ap (λ o. count b (elim o [ none ↦ [] | some bs ↦ bs ])) n in
            rw (n, publish) (c, h, subst (λ k. HasGot p k c c) (sym e) (HasGot-refl p c))
        | inr (bs, n) ↦
            let e : count b (targets t r) ≡ count b bs =
              ap (λ o. count b (elim o [ none ↦ [] | some bs ↦ bs ])) n in
            let (x, k, v) =
              send_each-Gets bs b p c (record w { heap = set_ref p (length bs) w.heap }) h in
            rw (n, publish) (x, k, subst (λ j. HasGot p j c x) (sym e) v)
      ]
