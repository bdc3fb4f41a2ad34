-- ===== src/EventBus.antt =====
-- include/event_bus.h and src/core/event_bus.cc: the table of subscriptions, the copy of it that
-- each thread keeps, and publishing. Each operation runs under the mutex, or without it on the
-- thread's own copy, so operations of several threads are a sequence. The hash maps are association
-- lists, and a pointer to a mailbox is its place in the program's list of mailboxes.
pub mod Routing
pub mod Sharing
pub mod History
pub mod Delivered
pub mod Subscriptions
use acnet.Prelude.{
  ℕ, suc, ◌==◌, ltb, if◌then◌else◌, Bool, Option, none, some, List, [], ◌∷◌, ◌++◌, length, is_empty,
}
use acnet.Message.{EventType, value}
use acnet.MessageHeap.{event_message_release, set_ref}
use acnet.MailBox.{World, send}

abbrev pub Routes : Type 0
Routes = List (EventType × List ℕ)

-- `class ActorEventBus`, and a thread's `local_event_bus` and `local_version`.
pub record EventBus : Type 0 where
  pub event_bus : Routes
  pub version : ℕ

pub record Local : Type 0 where
  pub local_event_bus : Routes
  pub local_version : ℕ

abbrev pub same_type : EventType → EventType → Bool
unfolding value
same_type s t = value s == value t

-- `find(type)`
unfoldable pub subscribers : EventType → Routes → Option (List ℕ)
subscribers t [] = none
subscribers t ((s, bs) ∷ r) = if same_type s t then some bs else subscribers t r

-- `event_bus_[type].push_back(mailbox)`
unfoldable pub push_back : EventType → ℕ → Routes → Routes
push_back t b [] = (t, b ∷ []) ∷ []
push_back t b ((s, bs) ∷ r) =
    if same_type s t then (s, bs ++ b ∷ []) ∷ r else (s, bs) ∷ push_back t b r

unfoldable pub subscribe : EventType → ℕ → EventBus → EventBus
subscribe t b bus = record { event_bus = push_back t b bus.event_bus; version = suc bus.version }

-- The list without its last element, after that has been put into the place of `x`.
unfoldable pub fill_with_last : List ℕ → List ℕ
fill_with_last [] = []
fill_with_last (y ∷ []) = y ∷ []
fill_with_last (y ∷ z ∷ zs) = elim (fill_with_last (z ∷ zs)) [ [] ↦ [] | l ∷ ls ↦ l ∷ y ∷ ls ]

-- The loop over the subscribers: the last one takes the place of the first that is the mailbox.
unfoldable pub take_out : ℕ → List ℕ → Option (List ℕ)
take_out b [] = none
take_out b (x ∷ xs) =
    if b == x
    then some (fill_with_last xs)
    else elim (take_out b xs) [ none ↦ none | some ys ↦ some (x ∷ ys) ]

-- `none` where there is no such subscriber; an entry with no subscriber left is erased.
unfoldable pub withdraw : EventType → ℕ → Routes → Option Routes
withdraw t b [] = none
withdraw t b ((s, bs) ∷ r) =
    if same_type s t
    then elim (take_out b bs) [
      | none ↦ none
      | some cs ↦ some (if is_empty cs then r else (s, cs) ∷ r)
    ]
    else elim (withdraw t b r) [ none ↦ none | some r' ↦ some ((s, bs) ∷ r') ]

unfoldable pub unsubscribe : EventType → ℕ → EventBus → EventBus
unsubscribe t b bus = elim (withdraw t b bus.event_bus) [
  | none ↦ bus
  | some r ↦ record { event_bus = r; version = suc bus.version }
]

unfoldable pub sync_route_table : EventBus → Local → Local
sync_route_table bus loc = record { local_event_bus = bus.event_bus; local_version = bus.version }

-- The first lines of `Publish`.
unfoldable pub refresh : EventBus → Local → Local
unfolding sync_route_table
refresh bus loc = if ltb loc.local_version bus.version then sync_route_table bus loc else loc

module _ (done : ℕ → Bool) where
  unfoldable pub send_each : List ℕ → ℕ → World → World
  send_each [] p w = w
  send_each (b ∷ bs) p w = send_each bs p (send done b p w)

  -- `Publish` of the message `p` of type `t`.
  unfoldable pub publish : EventBus → EventType → ℕ → Local → World → Local × World
  unfolding refresh
  publish bus t p loc w =
      let loc' = refresh bus loc in
      elim (subscribers t loc'.local_event_bus) [
        | some bs ↦ (loc', send_each bs p (record w { heap = set_ref p (length bs) w.heap }))
        | none ↦ (loc', record w { heap = event_message_release p w.heap })
      ]
