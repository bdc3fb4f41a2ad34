-- ===== src/MessageHeap.antt =====
-- include/event_message.h, the reference count of the messages, and `event_message_release`.
-- A pointer to a message is a number, and the null pointer is 0. Counts are `size_t`.
use acnet.Prelude.{ℕ, ◌+◌, ◌-◌, ◌^◌, ◌%◌, ◌==◌, if◌then◌else◌, List, ◌∷◌}

-- The counts of all messages, and the messages that have been deleted, newest first.
pub record Heap : Type 0 where
  pub ref : ℕ → ℕ
  pub deleted : List ℕ

unfoldable pub set_ref : ℕ → ℕ → Heap → Heap
set_ref p n h = record h { ref = λ q. if p == q then n else h.ref q }

-- `fetch_sub(1)` wraps at 0, and the last reference deletes the message.
unfoldable pub event_message_release : ℕ → Heap → Heap
unfolding set_ref
event_message_release p h =
    if p == 0
    then h
    else (let h' = set_ref p ((h.ref p + (2 ^ 64 - 1)) % 2 ^ 64) h in
        if h.ref p == 1 then record h' { deleted = p ∷ h'.deleted } else h')
