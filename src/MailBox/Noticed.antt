-- ===== src/MailBox/Noticed.antt =====
-- No wake-up is lost between `Send` and `await_suspend` of include/mail_box.h and
-- src/core/mail_box.cc: the message is published before the exchange, and looked for behind it.
use acnet.Prelude.{◌+◌, ◌≤◌, ◌<◌, ◌≡◌, Bool, true, false, arith, ◌⊎◌, inl, inr, Bool-cases}
use acnet.MailBox.Wakeup.{
  State, Step, Reach, bit, start, start_module, next, claim, publish, exchange_false, exchange_true,
  load_handle, load_null, enqueue_handle, resume, mark, finish, relaunch, receive, suspend,
  suspend_overtaking, clear, stay_suspended, recheck, reclaim, yield_to_sender,
}
use acnet.MailBox.Once.{IsOnce, fair-IsOnce}

-- A message that is there is known to `scheduled_`, or to a thread that will test it or set it.
abbrev IsNoticed : State → Type 0
IsNoticed s =
    (s.messages ≤ 0) ⊎ (0 < s.claimed + s.sending + s.rechecking + s.reclaiming + bit s.scheduled)

Step-IsNoticed : {s t : State} → Step s t → IsNoticed s → IsNoticed t
Step-IsNoticed claim v = ground (arith, v)
Step-IsNoticed (publish h) v = ground (arith, v)
Step-IsNoticed (exchange_false h e) v = ground (arith, v)
Step-IsNoticed (exchange_true h e) v = ground (arith, v)
Step-IsNoticed (load_handle h e) v = ground (arith, v)
Step-IsNoticed (load_null h e) v = ground (arith, v)
Step-IsNoticed (enqueue_handle h) v = ground (arith, v)
Step-IsNoticed (resume h) v = ground (arith, v)
Step-IsNoticed (mark h) v = ground (arith, v)
Step-IsNoticed (finish h) v = ground (arith, v)
Step-IsNoticed (relaunch h) v = ground (arith, v)
Step-IsNoticed (receive h k l) v = ground (arith, v)
Step-IsNoticed (suspend h k l e) v = ground (arith, v)
Step-IsNoticed (suspend_overtaking h k l e g) v = ground (arith, v)
Step-IsNoticed (clear h) v = ground (arith, v)
Step-IsNoticed (stay_suspended h e) v = ground (arith, v)
Step-IsNoticed (recheck h k) v = ground (arith, v)
Step-IsNoticed (reclaim h e) v = ground (arith, v)
Step-IsNoticed (yield_to_sender h e) v = ground (arith, v)

Reach-IsNoticed : {is_armed : Bool} → {s : State} → Reach is_armed s → IsNoticed s
Reach-IsNoticed start = inl (omega arith)
Reach-IsNoticed start_module = inl (omega arith)
Reach-IsNoticed (next r st) = Step-IsNoticed st (Reach-IsNoticed r)

has_place :
    {s : State}
    → IsOnce s
    → IsNoticed s
    → 0 < s.messages
    → s.claimed + s.sending + s.loading + s.waking ≡ 0
    → s.suspending + s.rechecking + s.reclaiming ≡ 0
    → s.queued + s.running + s.ended ≡ 1
has_place {s} v n h a e = elim (Bool-cases s.bound) [
  | inl b ↦ ground (arith, v.once b)
  | inr b ↦ ground (arith, v.first b)
]

-- No wake-up is lost, in the mailbox of the manager always, and in a module's as long as its coroutine
-- has not bound its handle for the first time while a thread stood in `Send` between the exchange that
-- returned false and the load of the handle: once no thread is inside `Send` and none is inside
-- `await_suspend`, a mailbox that holds a message has its consumer in a run queue or running, exactly
-- once, unless the consumer has ended and has not been launched again.
pub no_lost_wakeup :
    {is_armed : Bool}
    → {s : State} → Reach is_armed s
    → (is_armed ≡ true) ⊎ (s.overtaken ≡ false)
    → 0 < s.messages
    → s.claimed + s.sending + s.loading + s.waking ≡ 0
    → s.suspending + s.rechecking + s.reclaiming ≡ 0
    → s.queued + s.running + s.ended ≡ 1
no_lost_wakeup r f = has_place (fair-IsOnce r f) (Reach-IsNoticed r)
