-- ===== src/MailQueue/Delivery.antt =====
-- What producers and the consumer of `MailQueue` can rely on, whatever the interleaving.
use native.Mathlib.Nat.{mod-add-mod}
use acnet.Prelude.{
  ℕ, ◌+◌, ◌^◌, ◌%◌, ◌≤◌, ◌<◌, ◌≡◌, true, false, arith, on_ring, Bool-cases, inl, inr, ap, sym, ◌∙◌,
  leb, false≢true,
}
use acnet.MailQueue.{diff, is_negative}
use acnet.MailQueue.Threads.{loaded, State, sequence_at, Reach}
use acnet.MailQueue.Claims.{listing, Inv}
use acnet.MailQueue.Interleaving.{IsSmall, producer_at}
use acnet.MailQueue.Order.{bounded-Inv}

-- For a queue of 2 to 2 ^ 61 messages and fewer than 2 ^ 62 accepted ones, in every interleaving of any
-- number of producers and the consumer: what the consumer has received is, in order, exactly the
-- messages of the first positions that producers have got, so none is lost, repeated or overtaken; and
-- never are more messages under way than there are slots.
pub received-listing :
    (n : ℕ) {s : State}
    → 2 ≤ n
    → n ≤ 2 ^ 61
    → s.claims < 2 ^ 62
    → Reach n s
    → (s.received ≡ listing s.accepted s.q.read_index)
      × (s.q.read_index ≤ s.claims)
      × (s.claims ≤ s.q.read_index + s.q.size)
received-listing n big small few r =
    let v = (bounded-Inv n big small few r).0 in (v.history, v.behind, v.room)

module _ {s : State} (v : Inv s) (b : IsSmall s) where
  -- A slot that an earlier position or one of the ring looks at is not behind it.
  not_behind :
      (pos : ℕ)
      → pos < s.q.read_index + s.q.size
      → is_negative (diff (sequence_at s.q pos) pos) ≡ false
  unfolding diff is_negative
  not_behind pos l = elim (Bool-cases (leb s.q.read_index pos)) [
    | inl k ↦ elim (v.slot pos (ground arith) l) [
      | inl unread ↦ rw unread (ground (arith, b, v.room))
      | inr done ↦ rw (done.1) (ground (arith, b, v.room))
    ]
    | inr k ↦
        let r = s.q.read_index in
        let (j, m, e) =
          on_ring s.q.size (r % s.q.size) (pos % s.q.size) (grind (arith, v.big))
            (grind (arith, v.big)) in
        let z : (r + j) % s.q.size ≡ pos % s.q.size = sym (mod-add-mod r s.q.size j) ∙ e in
        let c : sequence_at s.q (r + j) ≡ sequence_at s.q pos =
          ap (λ i. (s.q.queue i).sequence) z in
        elim (v.slot (r + j) (omega arith) (omega arith)) [
          | inl unread ↦ rw (sym c ∙ unread) (ground (arith, b, v.behind, v.room))
          | inr done ↦ rw (sym c ∙ done.1) (ground (arith, b, v.behind, v.room))
        ]
  ]

-- Under the same bounds, a producer finds its slot occupied only while every slot of the queue is
-- taken by a message that is under way, and no other producer has got a position since it loaded the
-- write index.
pub refuse-full :
    (n : ℕ) {s : State} (i x pos : ℕ)
    → 2 ≤ n
    → n ≤ 2 ^ 61
    → s.claims < 2 ^ 62
    → Reach n s
    → s.producers i ≡ loaded x pos
    → is_negative (diff (sequence_at s.q pos) pos) ≡ true
    → (s.claims ≡ s.q.read_index + s.q.size) × (pos ≡ s.q.write_index)
refuse-full n {s} i x pos big small few r h k =
    let (v, b) = bounded-Inv n big small few r in
    let l = producer_at v i h in
    elim (Bool-cases (leb (s.q.read_index + s.q.size) pos)) [
      | inl e ↦
          let f : s.q.read_index + s.q.size ≤ pos = ground arith in
          (omega (arith, v.room, l, f), omega (arith, v.room, v.written, l, f))
      | inr e ↦ absurd (false≢true (sym (not_behind v b pos (ground arith)) ∙ k))
    ]
