-- ===== src/Manager/Exits.antt =====
-- The exits of the children of a manager that stops, src/core/actor_manager.cc, and the loop that sends
-- them the stop message.
use acnet.Prelude.{
  ◌++◌, ==-refl, sym, ◌∙◌, ◌≡◌, refl, ◌-◌, Bool, true, false, inl, inr, none, List, [], ◌∷◌, ℕ, map,
  ◌≢◌, arith, is_empty, contains, Option-cases, ==-to_eq,
}
use acnet.Message.{module_exited}
use acnet.Plugin.{Loader}
use acnet.Manager.State.{Childrens, ActorManager, find, remove, emit, mark_stop, consumed, sent}
use acnet.Manager.Tables.{keys, IsTable, contains-remove, remove-IsTable}
use acnet.Manager.Handlers.{stop_each, unmark, unmount, exit_found, handle_event_exit}
use acnet.Manager.EventLoop.{Delivery, dispatch, count_down, deliver, delivers, perform, run}

abbrev pub senders : List Delivery → List ℕ
senders [] = []
senders (d ∷ ds) = d.body.sender_id ∷ senders ds

-- The deliveries are exit events of different senders.
abbrev pub AreExits : List Delivery → Type 0
AreExits [] = Unit {0}
AreExits (d ∷ ds) =
    ((d.body.type ≡ module_exited) × (contains d.body.sender_id (senders ds) ≡ false)) × AreExits ds

-- The senders are exactly the children.
abbrev pub IsFrom : List Delivery → Childrens → Type 0
IsFrom ds cs = (i : ℕ) → contains i (senders ds) ≡ contains i (keys cs)

find_of_contains : (i : ℕ) (cs : Childrens) → contains i (keys cs) ≡ true → find i cs ≢ none
unfolding find contains
find_of_contains i [] h = ground arith
find_of_contains i ((key, d) ∷ cs) h = ground (arith, find_of_contains i cs)

-- While the program stops, an exit takes the child off the table, whatever is pending.
exit_stopping :
    (l : Loader) (i : ℕ) (m : ActorManager)
    → m.is_running ≡ false
    → contains i (keys m.childrens) ≡ true
    → handle_event_exit l i m ≡ unmount i (unmark i m)
unfolding handle_event_exit exit_found unmark
exit_stopping l i m h c = elim (Option-cases (find i m.childrens)) [
  | inl e ↦ absurd (find_of_contains i m.childrens c e)
  | inr (d, e) ↦ rw (e, handle_event_exit) (ground arith)
]

is_empty_of_keys : (cs : Childrens) → ((i : ℕ) → false ≡ contains i (keys cs)) → is_empty cs ≡ true
unfolding contains
is_empty_of_keys [] h = refl
is_empty_of_keys ((key, d) ∷ cs) h = ground (arith, h key)

pub not-is_empty_of_contains :
    (i : ℕ) (cs : Childrens) → contains i (keys cs) ≡ true → is_empty cs ≡ false
unfolding contains
not-is_empty_of_contains i [] h = ground arith
not-is_empty_of_contains i ((key, d) ∷ cs) h = refl

-- The manager after the exit of `i`, and after the delivery that brings it.
abbrev pub departed : ℕ → ActorManager → ActorManager
departed i m = (unmount i (unmark i m)).0

pub after_exit : Delivery → ActorManager → ActorManager
after_exit d m = emit (consumed d.message) (departed d.body.sender_id m)

pub deliver_more :
    (d : Delivery) (m : ActorManager)
    → d.body.type ≡ module_exited
    → m.is_running ≡ false
    → contains d.body.sender_id (keys m.childrens) ≡ true
    → is_empty (remove d.body.sender_id m.childrens) ≡ false
    → deliver d m ≡ (after_exit d m, false)
unfolding deliver dispatch unmount unmark after_exit
deliver_more d m t h c e =
    rw (t, exit_stopping d.environment.loader d.body.sender_id m h c, h, e) refl

deliver_last :
    (d : Delivery) (m : ActorManager)
    → d.body.type ≡ module_exited
    → m.is_running ≡ false
    → contains d.body.sender_id (keys m.childrens) ≡ true
    → is_empty (remove d.body.sender_id m.childrens) ≡ true
    → deliver d m ≡ (emit (consumed d.message) (count_down (departed d.body.sender_id m)), true)
unfolding deliver dispatch unmount unmark
deliver_last d m t h c e =
    rw (t, exit_stopping d.environment.loader d.body.sender_id m h c, h, e) refl

pub record Ended (m : ActorManager) (r : ActorManager × Bool) : Type 0 where
  pub returned : r.1 ≡ true
  pub no_child : is_empty r.0.childrens ≡ true
  pub latch : r.0.main_latch ≡ m.main_latch - 1

pub remaining :
    (n k : ℕ) (d : Delivery) (ds : List Delivery) (cs : Childrens)
    → IsTable n k cs
    → contains d.body.sender_id (senders ds) ≡ false
    → IsFrom (d ∷ ds) cs
    → IsFrom ds (remove d.body.sender_id cs)
unfolding contains
remaining n k d ds cs t u f i =
    ground (arith, f i, contains-remove n k i d.body.sender_id cs t, ==-to_eq i d.body.sender_id)

pub head-contains :
    (d : Delivery) (ds : List Delivery) (cs : Childrens)
    → IsFrom (d ∷ ds) cs
    → contains d.body.sender_id (keys cs) ≡ true
unfolding contains
head-contains d ds cs f = ground (arith, f d.body.sender_id)

pub none_remaining : (cs : Childrens) → IsFrom [] cs → is_empty cs ≡ true
unfolding contains
none_remaining cs f = is_empty_of_keys cs f

pub run_exits :
    (d : Delivery) (ds : List Delivery) (m : ActorManager)
    → m.is_running ≡ false
    → IsTable m.next_id m.next_mailbox m.childrens
    → AreExits (d ∷ ds)
    → IsFrom (d ∷ ds) m.childrens
    → Ended m (run (map delivers (d ∷ ds)) m)
unfolding run perform emit count_down after_exit unmount unmark
run_exits d [] m h t x f =
    let c = head-contains d [] m.childrens f in
    let rest = remaining m.next_id m.next_mailbox d [] m.childrens t x.0.1 f in
    let gone = none_remaining (remove d.body.sender_id m.childrens) rest in
    rw (deliver_last d m x.0.0 h c gone) (record { returned = refl; no_child = gone; latch = refl })
run_exits d (e ∷ ds) m h t x f =
    let i = d.body.sender_id in
    let c = head-contains d (e ∷ ds) m.childrens f in
    let rest = remaining m.next_id m.next_mailbox d (e ∷ ds) m.childrens t x.0.1 f in
    let more = not-is_empty_of_contains e.body.sender_id _ (head-contains e ds _ rest) in
    rw (deliver_more d m x.0.0 h c more) (
      let u = remove-IsTable m.next_id m.next_mailbox i m.childrens t in
      let r = run_exits e ds (after_exit d m) h u x.1 rest in
      record { returned = r.returned; no_child = r.no_child; latch = r.latch })

pub stop_each-keeps :
    (msg : ℕ) (cs : Childrens) (m : ActorManager)
    → let n = stop_each msg cs m in
      (n.is_running ≡ m.is_running)
      × (n.childrens ≡ m.childrens)
      × (n.main_latch ≡ m.main_latch)
      × (n.next_id ≡ m.next_id)
      × (n.next_mailbox ≡ m.next_mailbox)
unfolding stop_each emit mark_stop
stop_each-keeps msg [] m = (refl, refl, refl, refl, refl)
stop_each-keeps msg ((i, d) ∷ cs) m =
    stop_each-keeps msg cs (emit (sent d.mailbox msg) (mark_stop i m))

contains-senders :
    (es : List Delivery) (d : Delivery) (rest : List Delivery)
    → contains d.body.sender_id (senders (es ++ d ∷ rest)) ≡ true
unfolding contains
contains-senders [] d rest = ground (arith, ==-refl d.body.sender_id)
contains-senders (e ∷ es) d rest = ground (arith, contains-senders es d rest)

from-not-is_empty :
    (es : List Delivery) (d : Delivery) (rest : List Delivery) (cs : Childrens)
    → IsFrom (es ++ d ∷ rest) cs
    → is_empty cs ≡ false
from-not-is_empty es d rest cs f =
    not-is_empty_of_contains d.body.sender_id cs
      (sym (f d.body.sender_id) ∙ contains-senders es d rest)

-- As long as an exit is missing, the loop goes on.
pub run_prefix :
    (es : List Delivery) (d : Delivery) (rest : List Delivery) (m : ActorManager)
    → m.is_running ≡ false
    → IsTable m.next_id m.next_mailbox m.childrens
    → AreExits (es ++ d ∷ rest)
    → IsFrom (es ++ d ∷ rest) m.childrens
    → (run (map delivers es) m).1 ≡ false
unfolding run perform emit after_exit unmount unmark
run_prefix [] d rest m h t x f = refl
run_prefix (e ∷ es) d rest m h t x f =
    let i = e.body.sender_id in
    let c = head-contains e (es ++ d ∷ rest) m.childrens f in
    let left = remaining m.next_id m.next_mailbox e (es ++ d ∷ rest) m.childrens t x.0.1 f in
    rw (deliver_more e m x.0.0 h c (from-not-is_empty es d rest _ left)) (
      run_prefix es d rest (after_exit e m) h
        (remove-IsTable m.next_id m.next_mailbox i m.childrens t) x.1 left)
