-- ===== src/MailQueue/Threads.antt =====
-- `MailQueue` under any number of producers and its one consumer, interleaved at their accesses to
-- `write_index_`, the sequence numbers and the messages of the slots. The accesses take effect in one
-- order that all threads agree on. The consumer's read index is its own, and stands with the store of
-- the sequence number behind it.
use acnet.Prelude.{ℕ, suc, ◌%◌, ◌≡◌, ◌==◌, true, false, List, [], ◌∷◌, update_at}
use acnet.MailQueue.{Slot, MailQueue, mail_queue, diff, is_negative, add, update}

-- Where a producer is in `try_enqueue`, with its message: before the load of the write index; behind
-- it; with a slot that is free; behind the compare-exchange, with the position that it has got; and
-- before the sequence number is stored.
pub data Producer : Type 0 where
  resting : Producer
  starting : ℕ → Producer
  loaded : (x pos : ℕ) → Producer
  seen : (x pos : ℕ) → Producer
  claimed : (x pos : ℕ) → Producer
  filled : (x pos : ℕ) → Producer

-- Where the consumer is in `try_dequeue`: outside, or with a message, its slot not yet freed.
pub data Consumer : Type 0 where
  idle : Consumer
  holding : ℕ → Consumer

-- `claims` counts the positions that producers have got, and `accepted` gives the message of each;
-- `received` lists what the consumer has got, newest first.
pub record State : Type 0 where
  pub q : MailQueue
  pub producers : ℕ → Producer
  pub consumer : Consumer
  pub claims : ℕ
  pub accepted : ℕ → ℕ
  pub received : List ℕ

abbrev pub sequence_at : MailQueue → ℕ → ℕ
sequence_at q pos = (q.queue (pos % q.size)).sequence

abbrev pub message_at : MailQueue → ℕ → ℕ
message_at q pos = (q.queue (pos % q.size)).message

abbrev pub store_slot : MailQueue → ℕ → Slot → MailQueue
store_slot q pos slot = record q { queue = update q.queue (pos % q.size) slot }

-- A queue that has been constructed for `n` messages.
abbrev pub initial : ℕ → State
initial n = record {
  q = mail_queue n;
  producers = λ i. resting;
  consumer = idle;
  claims = 0;
  accepted = λ p. 0;
  received = [];
}

abbrev pub at : State → ℕ → Producer → State
at s i p = record s { producers = update_at s.producers i p }

pub data Step (s : State) : State → Type 0 where
  begin : (i x : ℕ) → s.producers i ≡ resting → Step s (at s i (starting x))
  load : (i : ℕ) {x : ℕ} → s.producers i ≡ starting x → Step s (at s i (loaded x s.q.write_index))
  refuse :
      (i : ℕ) {x pos : ℕ}
      → s.producers i ≡ loaded x pos
      → is_negative (diff (sequence_at s.q pos) pos) ≡ true
      → Step s (at s i resting)
  see :
      (i : ℕ) {x pos : ℕ}
      → s.producers i ≡ loaded x pos
      → diff (sequence_at s.q pos) pos ≡ 0
      → Step s (at s i (seen x pos))
  ahead :
      (i : ℕ) {x pos : ℕ}
      → s.producers i ≡ loaded x pos
      → is_negative (diff (sequence_at s.q pos) pos) ≡ false
      → (diff (sequence_at s.q pos) pos == 0) ≡ false
      → Step s (at s i (starting x))
  claim :
      (i : ℕ) {x pos : ℕ}
      → s.producers i ≡ seen x pos
      → s.q.write_index ≡ pos
      → Step s (record s {
        q = record s.q { write_index = add pos 1 };
        producers = update_at s.producers i (claimed x pos);
        claims = suc s.claims;
        accepted = update_at s.accepted s.claims x;
      })
  -- The weak compare-exchange may fail without a reason.
  fail : (i : ℕ) {x pos : ℕ} → s.producers i ≡ seen x pos → Step s (at s i (starting x))
  fill :
      (i : ℕ) {x pos : ℕ}
      → s.producers i ≡ claimed x pos
      → Step s (record s {
        q = store_slot s.q pos (record { sequence = sequence_at s.q pos; message = x });
        producers = update_at s.producers i (filled x pos);
      })
  publish :
      (i : ℕ) {x pos : ℕ}
      → s.producers i ≡ filled x pos
      → Step s (record s {
        q = store_slot s.q pos (record { sequence = add pos 1; message = message_at s.q pos });
        producers = update_at s.producers i resting;
      })
  fetch :
      s.consumer ≡ idle
      → is_negative (diff (sequence_at s.q s.q.read_index) (add s.q.read_index 1)) ≡ false
      → Step s (record s { consumer = holding (message_at s.q s.q.read_index) })
  free :
      {m : ℕ}
      → s.consumer ≡ holding m
      → Step s (record s {
        q =
            record (store_slot s.q s.q.read_index
              (record { sequence = add s.q.read_index s.q.size; message = 0 })) {
                read_index = add s.q.read_index 1;
              };
        consumer = idle;
        received = m ∷ s.received;
      })

pub data Reach (n : ℕ) : State → Type 0 where
  start : Reach n (initial n)
  next : {s t : State} → Reach n s → Step s t → Reach n t
