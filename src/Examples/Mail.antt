-- ===== src/Examples/Mail.antt =====
-- The wake-up protocol on concrete interleavings: a message is sent to the mailbox of a module before
-- its coroutine has run. The coroutine marks itself as running, receives the message, finds its mailbox
-- empty and suspends; a thread then sends a message and puts the coroutine back into a run queue. Where
-- the first thread loads the handle only after the coroutine has bound it, the handle is enqueued twice.
use acnet.Prelude.{◌+◌, ◌≤◌, ◌<◌, ◌≡◌, refl, arith, inl, inr, true, false}
use acnet.MailBox.Wakeup.{
  Reach, start_module, next, armed, launched, resume, mark, receive, suspend, suspend_overtaking,
  clear, stay_suspended, claim, publish, exchange_false, load_handle, load_null, enqueue_handle,
}
use acnet.MailBox.Once.{consumer_once}
use acnet.MailBox.Noticed.{no_lost_wakeup}

-- The message is there and `scheduled_` is set; the thread has not yet loaded the handle.
abbrev early : Reach false (record launched { messages = 1; scheduled = true; loading = 1 })
early =
    next (next (next start_module claim) (publish (omega arith)))
      (exchange_false (omega arith) refl)

abbrev received : Reach false (record armed { queued = 0; running = 1; bound = false })
received =
    next
      (next (next (next early (load_null (omega arith) refl)) (resume (omega arith)))
        (mark (omega arith)))
      (receive (omega arith) refl (omega arith))

abbrev asleep : Reach false (record armed { queued = 0; scheduled = false })
asleep =
    next
      (next (next received (suspend (omega arith) refl (inl refl) (inr refl)))
        (clear (omega arith)))
      (stay_suspended (omega arith) (inl refl))

abbrev woken : Reach false (record armed { messages = 1 })
woken =
    next
      (next
        (next (next (next asleep claim) (publish (omega arith)))
          (exchange_false (omega arith) refl))
        (load_handle (omega arith) refl))
      (enqueue_handle (omega arith))

-- The first thread has been overtaken: it enqueues the handle while `scheduled_` is false.
abbrev overtaking : Reach false (record armed { scheduled = false; overtaken = true })
overtaking =
    next
      (next
        (next
          (next
            (next
              (next (next (next early (resume (omega arith))) (mark (omega arith)))
                (receive (omega arith) refl (omega arith)))
              (suspend_overtaking (omega arith) refl (inl refl) refl (omega arith)))
            (clear (omega arith)))
          (stay_suspended (omega arith) (inl refl)))
        (load_handle (omega arith) refl))
      (enqueue_handle (omega arith))

abbrev enqueued_twice : Reach false (record armed { messages = 1; queued = 2; overtaken = true })
enqueued_twice =
    next
      (next
        (next (next (next overtaking claim) (publish (omega arith)))
          (exchange_false (omega arith) refl))
        (load_handle (omega arith) refl))
      (enqueue_handle (omega arith))

no_lost_wakeup_example : 1 + 0 + 0 ≡ 1
no_lost_wakeup_example = no_lost_wakeup woken (inr refl) (omega arith) refl refl

consumer_once_example :
    (0 + 1 + 0 + 0 + 0 ≤ 1)
    × (0 < 0 → 0 + 1 + 0 + 0 ≡ 0)
    × ((true ≡ true) → 0 + (0 + 1 + 0 + 0 + 0) ≡ 1)
consumer_once_example = consumer_once woken (inr refl)
