-- ===== src/Examples/Bus.antt =====
-- The bus and the counts of messages on concrete subscriptions and mailboxes.
use acnet.Prelude.{
  some, ◌+◌, ◌≤◌, count, ℕ, ◌==◌, ◌≡◌, refl, if◌then◌else◌, false, Bool, List, [], ◌∷◌, arith,
}
use acnet.Message.{value, module_exited, crash_report}
use acnet.MessageHeap.{Heap, event_message_release, set_ref}
use acnet.MailBox.{at, mail_box_size, MailBox, World, send, send_to, destroy}
use acnet.MailQueue.Fifo.{push}
use acnet.MailBox.Counting.{Owes}
use acnet.MailBox.Consuming.{destroy-Owes}
use acnet.EventBus.{
  EventBus, Local, subscribers, unsubscribe, refresh, sync_route_table, publish, send_each,
  withdraw, take_out, fill_with_last,
}
use acnet.EventBus.Routing.{IsRouting, nil, cons}
use acnet.EventBus.Subscriptions.{subscribed, publish-subscribed}
use acnet.EventBus.Sharing.{publish-Owes}
use acnet.EventBus.History.{
  Call, subscribes, unsubscribes, publishes, after, new_bus, new_local, refresh-current,
}

abbrev pub bus : EventBus
bus = record { event_bus = (crash_report, 0 ∷ 1 ∷ 0 ∷ []) ∷ []; version = 3 }

abbrev old_copy : Local
old_copy = record { local_event_bus = []; local_version = 2 }

-- Message 5 is new, message 6 is in both mailboxes.
abbrev heap : Heap
heap = record { ref = λ p. if p == 5 then 1 else (if p == 6 then 2 else 0); deleted = [] }

abbrev first : MailBox
first = record {
  discarded_nr = 0;
  solved_nr = 0;
  consumer = 9;
  scheduled = false;
  mailbox = 6 ∷ [];
}

abbrev second : MailBox
second = record first { consumer = 0 }

abbrev world : World
world = record { boxes = first ∷ second ∷ []; heap = heap; enqueued = [] }

abbrev awake : ℕ → Bool
awake h = false

six : Owes 6 0 world
six = record { counted = refl; small = omega arith; gone = refl }

pub bus-IsRouting : IsRouting bus.event_bus
unfolding subscribers
bus-IsRouting = cons refl refl nil

publish-Owes_example : Owes 5 0 (publish awake bus crash_report 5 old_copy world).1
unfolding subscribers refresh sync_route_table value
publish-Owes_example =
    publish-Owes awake bus crash_report 5 old_copy world refl refl refl refl bus-IsRouting
      (omega arith, (omega arith, (omega arith, tt))) (omega arith)

-- Three places hold the message, one consumer is woken.
published : (publish awake bus crash_report 5 old_copy world).1.heap.ref 5 ≡ 3
unfolding publish subscribers refresh sync_route_table value send_each send send_to push set_ref
published = refl

woken : (publish awake bus crash_report 5 old_copy world).1.enqueued ≡ 9 ∷ []
unfolding publish subscribers refresh sync_route_table value send_each send send_to push set_ref
woken = refl

not_subscribed : (publish awake bus module_exited 5 old_copy world).1.heap.deleted ≡ 5 ∷ []
unfolding publish subscribers refresh sync_route_table value event_message_release set_ref
not_subscribed = refl

destroy-Owes_example : Owes 6 0 (record world {
  boxes = first ∷ record second { mailbox = [] } ∷ [];
  heap = destroy second heap;
})
destroy-Owes_example = destroy-Owes 1 6 0 second world refl refl six

-- The last subscriber takes the place of the one that leaves.
reordered : (unsubscribe crash_report 0 bus).event_bus ≡ (crash_report, 0 ∷ 1 ∷ []) ∷ []
unfolding unsubscribe withdraw take_out fill_with_last value
reordered = refl

abbrev calls : List Call
calls = subscribes crash_report 0 ∷ publishes ∷ unsubscribes crash_report 0 ∷ []

refresh-current_example :
    let (b, loc) = after calls new_bus new_local in
    ((refresh b loc).local_event_bus ≡ b.event_bus) × IsRouting b.event_bus
refresh-current_example = refresh-current calls

-- The first mailbox has subscribed twice.
abbrev twice : List Call
twice = subscribes crash_report 0 ∷ publishes ∷ subscribes crash_report 0 ∷ []

publish-subscribed_example :
    let (b, loc) = after twice new_bus new_local in
    (c : MailBox) × (at 0 (publish awake b crash_report 5 loc world).1.boxes ≡ some c)
    × (count 5 c.mailbox + c.discarded_nr ≡ 0 + 0 + 2)
    × (1 + 2 ≤ mail_box_size → c.discarded_nr ≡ 0)
unfolding subscribed value
publish-subscribed_example = publish-subscribed awake twice crash_report 5 0 first world refl
