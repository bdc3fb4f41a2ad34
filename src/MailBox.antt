-- ===== src/MailBox.antt =====
-- include/mail_box.h and src/core/mail_box.cc: `Send`, `try_receive`, `ArmConsumer`, `MarkRunning`
-- and the destructor, run without interference; MailBox/Wakeup has their interleaving. The queue is
-- what MailQueue/Fifo promises. The program's mailboxes are a list, and a pointer to one is its
-- place; a coroutine handle is a number, and the null handle is 0.
pub mod Wakeup
pub mod Once
pub mod Noticed
pub mod Counting
pub mod Consuming
use acnet.Prelude.{
  ℕ, zero, suc, ◌+◌, ◌==◌, ◌&&◌, if◌then◌else◌, Bool, true, false, not, Option, none, some, List,
  [], ◌∷◌,
}
use acnet.MailQueue.Fifo.{push, pop}
use acnet.MessageHeap.{Heap, event_message_release}

-- `kMailBoxSize`
abbrev pub mail_box_size : ℕ
mail_box_size = 256

pub record MailBox : Type 0 where
  pub discarded_nr : ℕ
  pub solved_nr : ℕ
  pub consumer : ℕ
  pub scheduled : Bool
  pub mailbox : List ℕ

-- The mailboxes, the messages, and the handles given to `ActorScheduler::Enqueue`, newest first.
pub record World : Type 0 where
  pub boxes : List MailBox
  pub heap : Heap
  pub enqueued : List ℕ

abbrev pub at : ℕ → List MailBox → Option MailBox
at i [] = none
at zero (b ∷ bs) = some b
at (suc i) (b ∷ bs) = at i bs

abbrev pub put : ℕ → MailBox → List MailBox → List MailBox
put i c [] = []
put zero c (b ∷ bs) = c ∷ bs
put (suc i) c (b ∷ bs) = b ∷ put i c bs

-- The constructor; the size is the default.
unfoldable pub mail_box : MailBox
mail_box = record { discarded_nr = 0; solved_nr = 0; consumer = 0; scheduled = false; mailbox = [] }

unfoldable pub arm_consumer : ℕ → MailBox → MailBox
arm_consumer handle b = record b { consumer = handle; scheduled = true }

unfoldable pub mark_running : MailBox → MailBox
mark_running b = record b { scheduled = true }

-- The message, or `none` for `false`.
unfoldable pub try_receive : MailBox → MailBox × Option ℕ
try_receive b =
    let (rest, out) = pop b.mailbox in
    elim out [
      | none ↦ (b, none)
      | some p ↦ (record b { mailbox = rest; solved_nr = suc b.solved_nr }, some p)
    ]

-- The destructor drains the queue.
unfoldable pub drain : List ℕ → Heap → Heap
drain [] h = h
drain (p ∷ ps) h = drain ps (event_message_release p h)

unfoldable pub destroy : MailBox → Heap → Heap
destroy b h = drain b.mailbox h

module _ (done : ℕ → Bool) where
  -- `Send` to the mailbox `b`, which stands at the place `i`; `done` is `coroutine_handle::done`.
  unfoldable pub send_to : ℕ → MailBox → ℕ → World → World
  send_to i b p w =
      let (queue, accepted) = push mail_box_size b.mailbox p in
      if accepted
      then (let w' = record w {
        boxes = put i (record b { mailbox = queue; scheduled = true }) w.boxes;
      } in
          if not b.scheduled && (not (b.consumer == 0) && not (done b.consumer))
          then record w' { enqueued = b.consumer ∷ w.enqueued }
          else w')
      else record w {
        heap = event_message_release p w.heap;
        boxes = put i (record b { discarded_nr = suc b.discarded_nr }) w.boxes;
      }

  -- A place beyond the list is no mailbox, and no pointer of the program has it.
  unfoldable pub send : ℕ → ℕ → World → World
  send i p w = elim (at i w.boxes) [ none ↦ w | some b ↦ send_to i b p w ]
