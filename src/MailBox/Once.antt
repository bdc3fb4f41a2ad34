-- ===== src/MailBox/Once.antt =====
-- The consumer of a mailbox is in one place at a time: `scheduled_` of include/mail_box.h guards its
-- handle, from the first time that `await_suspend` has bound it.
use acnet.Prelude.{
  ◌+◌, ◌-◌, ◌≤◌, ◌<◌, ◌≡◌, refl, Bool, true, false, arith, ◌⊎◌, inl, inr, Bool-cases,
}
use acnet.MailBox.Wakeup.{
  State, Step, Reach, places, bit, start, start_module, next, claim, publish, exchange_false,
  exchange_true, load_handle, load_null, enqueue_handle, resume, mark, finish, relaunch, receive,
  suspend, suspend_overtaking, clear, stay_suspended, recheck, reclaim, yield_to_sender,
}

-- While nobody has been overtaken: a thread before the load of a bound handle is a place, too.
pub record IsOnce (s : State) : Type 0 where
  pub once : s.bound ≡ true → s.loading + places s ≡ bit s.scheduled
  pub first :
      s.bound ≡ false
      → (s.queued + s.running + s.ended ≡ 1)
        × (s.waking + s.suspending + s.reclaiming + s.rechecking ≡ 0)
  marking : s.bound ≡ false → s.marked ≡ true → s.scheduled ≡ true

-- The coroutine suspends itself, for the first time or again.
once_suspended :
    {s : State}
    → IsOnce s
    → 0 < s.running
    → s.marked ≡ true
    → (s.bound ≡ true) ⊎ (s.loading ≡ 0)
    → s.loading + (s.waking + s.queued + (s.running - 1) + (s.suspending + 1) + s.ended)
      ≡ bit s.scheduled
once_suspended {s} v h m e = elim (Bool-cases s.bound) [
  | inl b ↦ ground (arith, v.once b)
  | inr b ↦ ground (arith, v.first b, v.marking b m, e)
]

Step-IsOnce : {s t : State} → Step s t → t.overtaken ≡ false → IsOnce s → IsOnce t
Step-IsOnce claim o v = record { once = v.once; first = v.first; marking = v.marking }
Step-IsOnce (publish h) o v = record { once = v.once; first = v.first; marking = v.marking }
Step-IsOnce (exchange_false h e) o v = record {
  once = λ b. ground (arith, v.once b);
  first = λ b. ground (arith, v.first b);
  marking = λ _ _. refl;
}
Step-IsOnce (exchange_true h e) o v = record {
  once = λ b. ground (arith, v.once b);
  first = λ b. ground (arith, v.first b);
  marking = λ _ _. refl;
}
Step-IsOnce (load_handle h e) o v = record {
  once = λ b. ground (arith, v.once b);
  first = λ b. ground (arith, v.first b);
  marking = λ b m. ground (arith, v.first b, v.marking b m);
}
Step-IsOnce (load_null h e) o v = record {
  once = λ b. ground (arith, v.once b);
  first = λ b. ground (arith, v.first b);
  marking = λ b m. ground (arith, v.first b, v.marking b m);
}
Step-IsOnce (enqueue_handle h) o v = record {
  once = λ b. ground (arith, v.once b);
  first = λ b. ground (arith, v.first b);
  marking = λ b m. ground (arith, v.first b, v.marking b m);
}
Step-IsOnce (resume h) o v = record {
  once = λ b. ground (arith, v.once b);
  first = λ b. ground (arith, v.first b);
  marking = λ b m. ground (arith, v.first b, v.marking b m);
}
Step-IsOnce (mark h) o v = record {
  once = λ b. ground (arith, v.once b);
  first = λ b. ground (arith, v.first b);
  marking = λ _ _. refl;
}
Step-IsOnce (finish h) o v = record {
  once = λ b. ground (arith, v.once b);
  first = λ b. ground (arith, v.first b);
  marking = λ b m. ground (arith, v.first b, v.marking b m);
}
Step-IsOnce (relaunch h) o v = record {
  once = λ b. ground (arith, v.once b);
  first = λ b. ground (arith, v.first b);
  marking = λ b m. ground (arith, v.first b, v.marking b m);
}
Step-IsOnce (receive h k l) o v = record { once = v.once; first = v.first; marking = v.marking }
Step-IsOnce (suspend h k l e) o v = record {
  once = λ _. once_suspended v h k e;
  first = λ b. ground (arith, b);
  marking = λ b. ground (arith, b);
}
Step-IsOnce (suspend_overtaking h k l e g) o v = record {
  once = λ _. ground (arith, o);
  first = λ _. ground (arith, o);
  marking = λ _ _. ground (arith, o);
}
Step-IsOnce (clear h) o v = record {
  once = λ b. ground (arith, v.once b);
  first = λ b. ground (arith, v.first b);
  marking = λ b m. ground (arith, v.first b, v.marking b m);
}
Step-IsOnce (stay_suspended h e) o v = record {
  once = λ b. ground (arith, v.once b);
  first = λ b. ground (arith, v.first b);
  marking = λ b m. ground (arith, v.first b, v.marking b m);
}
Step-IsOnce (recheck h k) o v = record {
  once = λ b. ground (arith, v.once b);
  first = λ b. ground (arith, v.first b);
  marking = λ b m. ground (arith, v.first b, v.marking b m);
}
Step-IsOnce (reclaim h e) o v = record {
  once = λ b. ground (arith, v.once b);
  first = λ b. ground (arith, v.first b);
  marking = λ _ _. refl;
}
Step-IsOnce (yield_to_sender h e) o v = record {
  once = λ b. ground (arith, v.once b);
  first = λ b. ground (arith, v.first b);
  marking = λ _ _. refl;
}

-- Nobody who has been overtaken is forgotten.
overtaken-Step : {s t : State} → Step s t → t.overtaken ≡ false → s.overtaken ≡ false
overtaken-Step claim o = o
overtaken-Step (publish h) o = o
overtaken-Step (exchange_false h e) o = o
overtaken-Step (exchange_true h e) o = o
overtaken-Step (load_handle h e) o = o
overtaken-Step (load_null h e) o = o
overtaken-Step (enqueue_handle h) o = o
overtaken-Step (resume h) o = o
overtaken-Step (mark h) o = o
overtaken-Step (finish h) o = o
overtaken-Step (relaunch h) o = o
overtaken-Step (receive h k l) o = o
overtaken-Step (suspend h k l e) o = o
overtaken-Step (suspend_overtaking h k l e g) o = ground (arith, o)
overtaken-Step (clear h) o = o
overtaken-Step (stay_suspended h e) o = o
overtaken-Step (recheck h k) o = o
overtaken-Step (reclaim h e) o = o
overtaken-Step (yield_to_sender h e) o = o

abbrev NeverOvertaken : Bool → State → Type 0
NeverOvertaken b s = b ≡ true → (s.bound ≡ true) × (s.overtaken ≡ false)

Step-NeverOvertaken :
    {is_armed : Bool}
    → {s t : State} → Step s t
    → NeverOvertaken is_armed s
    → NeverOvertaken is_armed t
Step-NeverOvertaken claim v = v
Step-NeverOvertaken (publish h) v = v
Step-NeverOvertaken (exchange_false h e) v = v
Step-NeverOvertaken (exchange_true h e) v = v
Step-NeverOvertaken (load_handle h e) v = v
Step-NeverOvertaken (load_null h e) v = v
Step-NeverOvertaken (enqueue_handle h) v = v
Step-NeverOvertaken (resume h) v = v
Step-NeverOvertaken (mark h) v = v
Step-NeverOvertaken (finish h) v = v
Step-NeverOvertaken (relaunch h) v = v
Step-NeverOvertaken (receive h k l) v = v
Step-NeverOvertaken (suspend h k l e) v = λ a. (refl, (v a).1)
Step-NeverOvertaken (suspend_overtaking h k l e g) v = λ a. ground (arith, v a)
Step-NeverOvertaken (clear h) v = v
Step-NeverOvertaken (stay_suspended h e) v = v
Step-NeverOvertaken (recheck h k) v = v
Step-NeverOvertaken (reclaim h e) v = v
Step-NeverOvertaken (yield_to_sender h e) v = v

Reach-NeverOvertaken :
    {is_armed : Bool} → {s : State} → Reach is_armed s → NeverOvertaken is_armed s
Reach-NeverOvertaken start = λ _. (refl, refl)
Reach-NeverOvertaken start_module = λ a. ground (arith, a)
Reach-NeverOvertaken (next r st) = Step-NeverOvertaken st (Reach-NeverOvertaken r)

Reach-IsOnce : {is_armed : Bool} → {s : State} → Reach is_armed s → s.overtaken ≡ false → IsOnce s
Reach-IsOnce start o = record {
  once = λ _. refl;
  first = λ b. ground (arith, b);
  marking = λ b. ground (arith, b);
}
Reach-IsOnce start_module o = record {
  once = λ b. ground (arith, b);
  first = λ _. (refl, refl);
  marking = λ _ m. ground (arith, m);
}
Reach-IsOnce (next r st) o = Step-IsOnce st o (Reach-IsOnce r (overtaken-Step st o))

pub fair-IsOnce :
    {is_armed : Bool}
    → {s : State} → Reach is_armed s
    → (is_armed ≡ true) ⊎ (s.overtaken ≡ false)
    → IsOnce s
fair-IsOnce r (inl a) = Reach-IsOnce r (Reach-NeverOvertaken r a).1
fair-IsOnce r (inr o) = Reach-IsOnce r o

at_most_one : {s : State} → IsOnce s → places s ≤ 1
at_most_one {s} v = elim (Bool-cases s.bound) [
  | inl b ↦ ground (arith, v.once b)
  | inr b ↦ ground (arith, v.first b)
]

-- The consumer is never in two places, for the manager's mailbox always, and for a module's as long as
-- its coroutine has not bound its handle for the first time while a thread stood in `Send` between the
-- exchange that returned false and the load of the handle: at most one thread is about to enqueue the
-- handle, has it in a run queue, executes it, or suspends it, and none once the coroutine has ended.
-- Once the handle has been bound, a thread before the load counts as well, so that it cannot load the
-- handle of an ended coroutine, and there is one place exactly when `scheduled_` is set.
pub consumer_once :
    {is_armed : Bool}
    → {s : State} → Reach is_armed s
    → (is_armed ≡ true) ⊎ (s.overtaken ≡ false)
    → (places s ≤ 1)
      × (0 < s.ended → s.waking + s.queued + s.running + s.suspending ≡ 0)
      × (s.bound ≡ true → s.loading + places s ≡ bit s.scheduled)
consumer_once r f =
    let v = fair-IsOnce r f in let h = at_most_one v in (h, λ e. omega arith, v.once)
