-- ===== src/MailQueue.antt =====
-- include/queue.h, `MailQueue`: a bounded queue for many producers and one consumer, a ring of
-- slots with sequence numbers. This file has its state, and its operations run without interference;
-- MailQueue/Threads has them cut at their accesses.
-- Indices and sequence numbers are `size_t`, so they count modulo 2 ^ 64. The size is a power of
-- two, so `index & mask_` is the remainder by the size.
pub mod Ring
pub mod Fifo
pub mod Slots
pub mod Refine
pub mod Construct
pub mod Threads
pub mod Claims
pub mod Interleaving
pub mod Order
pub mod Delivery
pub mod Progress
use acnet.Prelude.{
  word, ℕ, zero, suc, ◌+◌, ◌-◌, ◌*◌, ◌%◌, ◌^◌, ◌==◌, ltb, leb, if◌then◌else◌, Bool, true, false,
  not, Option, none, some,
}

-- `MailQueue::Slot`; a null pointer is 0.
pub record Slot : Type 0 where
  pub sequence : ℕ
  pub message : ℕ

pub record MailQueue : Type 0 where
  pub write_index : ℕ
  pub read_index : ℕ
  pub queue : ℕ → Slot
  pub size : ℕ

-- `std::bit_ceil(size)`: the first power of two from `p` on that is not below `n`, for arguments
-- that have one among the next `fuel` powers.
unfoldable pub bit_ceil_from : ℕ → ℕ → ℕ → ℕ
bit_ceil_from zero p n = p
bit_ceil_from (suc fuel) p n =
    let rest = bit_ceil_from fuel (2 * p) n in if leb n p then p else rest

unfoldable pub bit_ceil : ℕ → ℕ
unfolding bit_ceil_from
bit_ceil n = bit_ceil_from 63 1 n

-- The constructor.
unfoldable pub mail_queue : ℕ → MailQueue
unfolding bit_ceil
mail_queue n = record {
  write_index = 0;
  read_index = 0;
  queue = λ i. record { sequence = i; message = 0 };
  size = bit_ceil n;
}

-- `static_cast<ptrdiff_t>(a) - static_cast<ptrdiff_t>(b)` as a 64-bit pattern; it is negative from
-- 2 ^ 63 on.
unfoldable pub diff : ℕ → ℕ → ℕ
diff a b = (a + word - b) % word

unfoldable pub is_negative : ℕ → Bool
is_negative d = leb (2 ^ 63) d

-- A word plus a number.
unfoldable pub add : ℕ → ℕ → ℕ
add a b = (a + b) % word

unfoldable pub update : (ℕ → Slot) → ℕ → Slot → ℕ → Slot
update f i s j = if i == j then s else f j

-- `try_enqueue` without interference: the compare-exchange succeeds whenever it is tried. Where the
-- slot is ahead of the index, nothing changes and the loop would go round for ever: `none`.
unfoldable pub try_enqueue : ℕ → MailQueue → Option (MailQueue × Bool)
try_enqueue message q =
    let i = q.write_index % q.size in
    let d = diff (q.queue i).sequence q.write_index in
    if is_negative d
    then some (q, false)
    else (if d == 0
        then some (
          record q {
            write_index = add q.write_index 1;
            queue = update q.queue i (record { sequence = add q.write_index 1; message = message });
          },
          true,
        )
        else none)

-- `try_dequeue`: the message, or `none` for `false`.
unfoldable pub try_dequeue : MailQueue → MailQueue × Option ℕ
try_dequeue q =
    let i = q.read_index % q.size in
    let slot = q.queue i in
    if is_negative (diff slot.sequence (add q.read_index 1)) then (q, none) else (
      record q {
        read_index = add q.read_index 1;
        queue = update q.queue i (record { sequence = add q.read_index q.size; message = 0 });
      },
      some slot.message,
    )

-- `can_dequeue`
unfoldable pub can_dequeue : MailQueue → Bool
can_dequeue q =
    not (is_negative (diff (q.queue (q.read_index % q.size)).sequence (add q.read_index 1)))
