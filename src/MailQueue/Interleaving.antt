-- ===== src/MailQueue/Interleaving.antt =====
-- Every access keeps the invariant of Claims.antt.
use mathlib.Core.Path.{ap₂}
use native.Mathlib.Nat.{add-mod_right}
use acnet.Prelude.{
  update_at-all, ℕ, suc, ◌+◌, ◌^◌, ◌%◌, ◌≤◌, ◌<◌, ◌≡◌, ◌≢◌, ◌==◌, refl, none, some, ◌∷◌, arith,
  update_at, update_at_self, Bool-cases, inl, inr, ap, sym, ◌∙◌, subst, leb,
}
use acnet.MailQueue.{Slot, diff, add, update}
use acnet.MailQueue.Threads.{
  Producer, seen, claimed, idle, holding, State, sequence_at, store_slot, at,
}
use acnet.MailQueue.Claims.{
  owned, listing, SlotInv, ProducerInv, ConsumerInv, Inv, slots_differ, update-other, update-same,
  SlotInv-keep, ProducerInv-keep, AreApart-update_at, owned_lem, ConsumerInv-keep, listing-same,
}

-- The next position is still a number below 2 ^ 63.
abbrev pub IsSmall : State → Type 0
IsSmall s = suc s.claims + s.q.size < 2 ^ 63

module _ {s : State} (v : Inv s) where
  pub producer_at :
      (i : ℕ) {P : Producer}
      → s.producers i ≡ P
      → ProducerInv s.q.queue s.q.size s.q.read_index s.claims s.accepted P
  producer_at i h =
      subst (ProducerInv s.q.queue s.q.size s.q.read_index s.claims s.accepted) h (v.producer i)

  -- A producer that owns nothing at its new place.
  pub at-Inv :
      (i : ℕ) (P : Producer)
      → owned P ≡ none
      → ProducerInv s.q.queue s.q.size s.q.read_index s.claims s.accepted P
      → Inv (at s i P)
  at-Inv i P h k = record {
    big = v.big;
    written = v.written;
    behind = v.behind;
    room = v.room;
    slot = v.slot;
    producer =
        update_at-all (λ j. ProducerInv s.q.queue s.q.size s.q.read_index s.claims s.accepted)
          s.producers i P k (λ j d. v.producer j);
    apart = AreApart-update_at s.producers i P (λ j pos e l. absurd (cc)) v.apart;
    consumer = v.consumer;
    history = v.history;
  }

  -- The slot of the oldest position: its sequence number, and what a position behind the ring sees.
  pub seen-room :
      (pos : ℕ)
      → IsSmall s
      → pos ≤ s.claims
      → diff (sequence_at s.q pos) pos ≡ 0
      → pos ≡ s.claims
      → s.claims < s.q.read_index + s.q.size
  unfolding diff
  seen-room pos b l d e = elim (Bool-cases (leb (s.q.read_index + s.q.size) s.claims)) [
    | inr below ↦ ground arith
    | inl full ↦
        let k : pos ≡ s.q.read_index + s.q.size = ground (arith, v.room) in
        let m : pos % s.q.size ≡ s.q.read_index % s.q.size =
          ap (λ p. p % s.q.size) k ∙ add-mod_right s.q.read_index s.q.size in
        let c : sequence_at s.q pos ≡ sequence_at s.q s.q.read_index =
          ap (λ j. (s.q.queue j).sequence) m in
        elim (v.slot s.q.read_index (omega arith) (omega (arith, v.big))) [
          | inl unread ↦ absurd (omega (arith, c, unread, d, k, b, v.big, e))
          | inr done ↦ absurd (omega (arith, c, done.1, d, k, b, v.big, e))
        ]
  ]

  -- The owner of a position stores into its slot.
  pub store-Inv :
      (i pos : ℕ) (P : Producer) (slot : Slot)
      → owned (s.producers i) ≡ some pos
      → ((p : ℕ) → owned P ≡ some p → p ≡ pos)
      → SlotInv (update s.q.queue (pos % s.q.size) slot) s.q.size s.claims s.accepted pos
      → ProducerInv
          (update s.q.queue (pos % s.q.size) slot)
          s.q.size
          s.q.read_index
          s.claims
          s.accepted
          P
      → Inv (record s { q = store_slot s.q pos slot; producers = update_at s.producers i P })
  store-Inv i pos P slot o only here k =
      let (low, high, mine) =
        owned_lem s.q.queue s.q.size s.q.read_index s.claims s.accepted (s.producers i) pos
          (v.producer i) o in
      let f' = update s.q.queue (pos % s.q.size) slot in
      let keeps : (p : ℕ)
          → s.q.read_index ≤ p
          → p < s.q.read_index + s.q.size
          → pos ≢ p
          → f' (p % s.q.size) ≡ s.q.queue (p % s.q.size) =
        λ p l m d.
          update-other s.q.queue (pos % s.q.size) (p % s.q.size) slot
            (slots_differ s.q.size s.q.read_index pos p low (omega (arith, v.room)) l m d) in
      record {
        big = v.big;
        written = v.written;
        behind = v.behind;
        room = v.room;
        slot = λ p l m. elim (Bool-cases (pos == p)) [
          | inl e ↦ subst (SlotInv f' s.q.size s.claims s.accepted) (ground arith) here
          | inr e ↦
              SlotInv-keep s.q.queue f' s.q.size s.q.read_index s.q.read_index s.claims s.claims
                s.accepted s.accepted (omega arith) (omega arith) (λ q r. refl) p
                (keeps p l m (ground arith)) (v.slot p l m)
        ];
        producer =
            update_at-all (λ j. ProducerInv f' s.q.size s.q.read_index s.claims s.accepted)
              s.producers i P k
              (λ j d.
                ProducerInv-keep s.q.queue f' s.q.size s.q.read_index s.q.read_index s.claims
                  s.claims s.accepted s.accepted (omega arith) (omega arith) (λ q r. refl)
                  (s.producers j)
                  (λ p e l m. (
                    keeps p l (omega (arith, v.room)) (λ q. d (v.apart i j p (o ∙ ap some q) e)),
                    l,
                  ))
                  (v.producer j));
        apart =
            AreApart-update_at s.producers i P
              (λ j p e l. v.apart i j p (o ∙ ap some (sym (only p e))) l) v.apart;
        consumer =
            ConsumerInv-keep s.q.queue f' s.q.size s.q.read_index s.claims s.claims s.accepted
              s.accepted s.consumer (omega arith) (λ q r. refl)
              (λ l e.
                keeps s.q.read_index (omega arith) (omega (arith, v.big))
                  (λ q. absurd (omega (arith, sym (ap (sequence_at s.q) q) ∙ mine, e, q))))
              v.consumer;
        history = v.history;
      }

  -- A producer gets the position that its free slot was seen for.
  pub claim-Inv :
      (i x pos : ℕ)
      → IsSmall s
      → s.producers i ≡ seen x pos
      → s.q.write_index ≡ pos
      → Inv (record s {
        q = record s.q { write_index = add pos 1 };
        producers = update_at s.producers i (claimed x pos);
        claims = suc s.claims;
        accepted = update_at s.accepted s.claims x;
      })
  unfolding add
  claim-Inv i x pos b h e =
      let k = producer_at i h in
      let c : pos ≡ s.claims = sym e ∙ v.written in
      let l : s.claims < s.q.read_index + s.q.size = k.1 c in
      let log' = update_at s.accepted s.claims x in
      let same : (p : ℕ) → p < s.claims → log' p ≡ s.accepted p = λ p m. ground arith in
      let unread : sequence_at s.q pos ≡ pos =
        elim (v.slot pos (omega (arith, c, v.behind)) (omega (arith, c, l))) [
          | inl u ↦ u
          | inr u ↦ absurd (omega (arith, u.0, c))
        ] in
      record {
        big = v.big;
        written = omega (arith, c, b);
        behind = omega (arith, v.behind);
        room = omega (arith, l);
        slot = λ p a m.
            SlotInv-keep s.q.queue s.q.queue s.q.size s.q.read_index s.q.read_index s.claims
              (suc s.claims) s.accepted log' (omega arith) (omega arith) same p refl (v.slot p a m);
        producer =
            update_at-all (λ j. ProducerInv s.q.queue s.q.size s.q.read_index (suc s.claims) log')
              s.producers i (claimed x pos)
              (
                omega (arith, c, v.behind),
                omega (arith, c),
                unread,
                ap log' c ∙ update_at_self s.accepted s.claims x,
              )
              (λ j d.
                ProducerInv-keep s.q.queue s.q.queue s.q.size s.q.read_index s.q.read_index s.claims
                  (suc s.claims) s.accepted log' (omega arith) (omega arith) same (s.producers j)
                  (λ p o a m. (refl, a)) (v.producer j));
        apart =
            AreApart-update_at s.producers i (claimed x pos)
              (λ j p o a.
                let (f, g, u) =
                  owned_lem s.q.queue s.q.size s.q.read_index s.claims s.accepted (s.producers j) p
                    (v.producer j) a in
                let q : pos ≡ p = cc in absurd (omega (arith, g, q, c)))
              v.apart;
        consumer =
            ConsumerInv-keep s.q.queue s.q.queue s.q.size s.q.read_index s.claims (suc s.claims)
              s.accepted log' s.consumer (omega arith) same (λ a m. refl) v.consumer;
        history =
            v.history
            ∙ sym (
                listing-same s.accepted log' s.q.read_index
                  (λ p a. same p (omega (arith, v.behind))));
      }

  -- The consumer frees the slot of the oldest position.
  pub free-Inv :
      (m : ℕ)
      → IsSmall s
      → s.consumer ≡ holding m
      → Inv (record s {
        q =
            record (store_slot s.q s.q.read_index
              (record { sequence = s.q.read_index + s.q.size; message = 0 })) {
                read_index = suc s.q.read_index;
              };
        consumer = idle;
        received = m ∷ s.received;
      })
  unfolding listing
  free-Inv m b h =
      let (l, done, e) =
        subst (ConsumerInv s.q.queue s.q.size s.q.read_index s.claims s.accepted) h v.consumer in
      let r = s.q.read_index in
      let slot : Slot = record { sequence = r + s.q.size; message = 0 } in
      let f' = update s.q.queue (r % s.q.size) slot in
      let keeps : (p : ℕ)
          → r < p
          → p < r + s.q.size
          → f' (p % s.q.size) ≡ s.q.queue (p % s.q.size) =
        λ p a k. update-other s.q.queue (r % s.q.size) (p % s.q.size) slot (
          slots_differ s.q.size r r p (omega arith) (omega (arith, v.big)) (omega arith) k
            (omega arith)) in
      record {
        big = v.big;
        written = v.written;
        behind = omega arith;
        room = omega (arith, v.room);
        slot = λ p a k. elim (Bool-cases (r + s.q.size == p)) [
          | inl q ↦
              let z : p % s.q.size ≡ r % s.q.size =
                ap (λ j. j % s.q.size) (ground arith) ∙ add-mod_right r s.q.size in
              inl (
                ap (λ j. (f' j).sequence) z
                ∙ ap (λ (u : Slot). u.sequence) (update-same s.q.queue (r % s.q.size) slot)
                ∙ ground arith)
          | inr q ↦
              SlotInv-keep s.q.queue f' s.q.size r (suc r) s.claims s.claims s.accepted s.accepted
                (omega arith) (omega arith) (λ j y. refl) p (keeps p (omega arith) (ground arith))
                (v.slot p (omega arith) (ground arith))
        ];
        producer = λ j.
            ProducerInv-keep s.q.queue f' s.q.size r (suc r) s.claims s.claims s.accepted s.accepted
              (omega arith) (omega arith) (λ j y. refl) (s.producers j)
              (λ p o a k.
                let (f, g, u) =
                  owned_lem s.q.queue s.q.size r s.claims s.accepted (s.producers j) p
                    (v.producer j) o in
                let d : r ≢ p = λ q. omega (arith, ap (sequence_at s.q) q ∙ u, done, q) in
                (keeps p (omega (arith, d)) (omega (arith, v.room)), omega (arith, d)))
              (v.producer j);
        apart = v.apart;
        consumer = tt;
        history = ap₂ (λ y ys. y ∷ ys) e v.history;
      }
