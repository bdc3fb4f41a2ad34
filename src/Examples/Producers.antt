-- ===== src/Examples/Producers.antt =====
-- Producers and the consumer of a queue for two messages: one message on its way through, and a
-- producer that finds the queue full of positions which are not yet published.
use acnet.Prelude.{
  ℕ, suc, ◌<◌, ◌==◌, ◌⊎◌, true, false, ◌+◌, ◌≤◌, ◌≡◌, refl, arith, [], ◌∷◌, update_at,
}
use acnet.MailQueue.{Slot, mail_queue, bit_ceil, bit_ceil_from, diff, is_negative, add, update}
use acnet.MailQueue.Threads.{
  Producer, resting, starting, loaded, seen, claimed, filled, idle, State, sequence_at, Reach,
  start, next, begin, load, see, claim, fill, publish, fetch, free,
}
use acnet.MailQueue.Claims.{listing}
use acnet.MailQueue.Delivery.{received-listing}
use acnet.MailQueue.Progress.{Steps, HasFinished, try_enqueue-finishes, try_enqueue-tests}

abbrev slots : ℕ → Slot
slots i = record { sequence = i; message = 0 }

-- The places that a producer goes through from `F` on.
abbrev claims_at : (ℕ → Producer) → ℕ → (x pos : ℕ) → ℕ → Producer
claims_at F i x pos =
    update_at (update_at (update_at (update_at F i (starting x)) i (loaded x pos)) i (seen x pos)) i
      (claimed x pos)

abbrev one_claim : State
one_claim = record {
  q = record { write_index = 1; read_index = 0; queue = slots; size = 2 };
  producers = claims_at (λ i. resting) 0 8 0;
  consumer = idle;
  claims = 1;
  accepted = update_at (λ p. 0) 0 8;
  received = [];
}

Reach-one_claim : Reach 2 one_claim
unfolding mail_queue bit_ceil bit_ceil_from add diff
Reach-one_claim =
    next (next (next (next start (begin 0 8 refl)) (load 0 refl)) (see 0 refl refl))
      (claim 0 refl refl)

abbrev delivered : State
delivered = record {
  q = record {
    write_index = 1;
    read_index = 1;
    queue =
        update
          (update (update slots 0 (record { sequence = 0; message = 8 })) 0
            (record { sequence = 1; message = 8 }))
          0 (record { sequence = 2; message = 0 });
    size = 2;
  };
  producers = update_at (update_at one_claim.producers 0 (filled 8 0)) 0 resting;
  consumer = idle;
  claims = 1;
  accepted = update_at (λ p. 0) 0 8;
  received = 8 ∷ [];
}

Reach-delivered : Reach 2 delivered
unfolding add diff is_negative update
Reach-delivered =
    next (next (next (next Reach-one_claim (fill 0 refl)) (publish 0 refl)) (fetch refl refl))
      (free refl)

received-listing_example : (8 ∷ [] ≡ listing delivered.accepted 1) × (1 ≤ 1) × (1 ≤ 1 + 2)
received-listing_example =
    received-listing 2 (omega arith) (omega arith) (omega arith) Reach-delivered

abbrev full : State
full = record one_claim {
  q = record one_claim.q { write_index = 2 };
  producers = claims_at one_claim.producers 1 9 1;
  claims = 2;
  accepted = update_at one_claim.accepted 1 9;
}

Reach-full : Reach 2 full
unfolding add diff
Reach-full =
    next (next (next (next Reach-one_claim (begin 1 9 refl)) (load 1 refl)) (see 1 refl refl))
      (claim 1 refl refl)

abbrev too_late : State
too_late = record full {
  producers = update_at (update_at full.producers 2 (starting 7)) 2 (loaded 7 2);
}

Reach-too_late : Reach 2 too_late
Reach-too_late = next (next Reach-full (begin 2 7 refl)) (load 2 refl)

try_enqueue-tests_example :
    let d = diff (sequence_at too_late.q 2) 2 in
    ((is_negative d ≡ true)
      × (too_late.claims ≡ too_late.q.read_index + too_late.q.size)
      × (2 ≡ too_late.q.write_index))
    ⊎ ((is_negative d ≡ false) × (d ≡ 0))
    ⊎ ((is_negative d ≡ false) × ((d == 0) ≡ false) × (2 < too_late.q.write_index))
try_enqueue-tests_example =
    try_enqueue-tests 2 2 7 2 (omega arith) (omega arith) (omega arith) Reach-too_late refl

-- A producer begins while one message is under way, and there are two slots.
abbrev early : State
early = record one_claim { producers = update_at one_claim.producers 1 (starting 9) }

Reach-early : Reach 2 early
Reach-early = next Reach-one_claim (begin 1 9 refl)

try_enqueue-finishes_example :
    ((early.claims < early.q.read_index + early.q.size)
      × ((t : State) × Steps early 5 t
          × HasFinished 1 early t
          × (t.claims ≡ suc early.claims)
          × (t.accepted early.claims ≡ 9)))
    ⊎ ((early.claims ≡ early.q.read_index + early.q.size)
        × ((t : State) × Steps early 2 t
            × HasFinished 1 early t
            × (t.q ≡ early.q)
            × (t.claims ≡ early.claims)))
try_enqueue-finishes_example =
    try_enqueue-finishes 2 1 9 (omega arith) (omega arith) (omega arith) Reach-early refl
