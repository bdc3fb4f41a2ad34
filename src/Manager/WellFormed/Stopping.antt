-- ===== src/Manager/WellFormed/Stopping.antt =====
-- The loops that mark children and send them the stop message keep `IsWellFormed`.
use acnet.Prelude.{
  ◌≡◌, refl, true, inl, inr, none, [], ◌∷◌, ℕ, arith, Bytes, Option, bytes_eq, contains, Bool-cases,
}
use acnet.Message.{EventType, cmd_module_stop}
use acnet.Manager.State.{
  ActorMetaData, Childrens, ActorManager, emit, new_message, mark_reload, mark_stop, sent,
}
use acnet.Manager.Tables.{keys, IsWellFormed}
use acnet.Manager.Pending.{mark_reload-IsPending, mark_stop-IsPending}
use acnet.Manager.Handlers.{stop_all_for_reload, stop_named_for_reload, stop_each, stop_named}
use acnet.Manager.WellFormed.{emit-IsWellFormed}

-- Two managers with the same tables are well formed together.
pub tables-IsWellFormed :
    (m n : ActorManager)
    → m.next_id ≡ n.next_id
    → m.next_mailbox ≡ n.next_mailbox
    → m.childrens ≡ n.childrens
    → m.pending_reload ≡ n.pending_reload
    → m.pending_stop ≡ n.pending_stop
    → m.pending_restart ≡ n.pending_restart
    → IsWellFormed m
    → IsWellFormed n
tables-IsWellFormed m n a b c d e f v = record {
  positive = rw (← a, ← b) v.positive;
  table = rw (← a, ← b, ← c) v.table;
  pending = rw (← c, ← d, ← e, ← f) v.pending;
}

pub new_message-IsWellFormed :
    (r : ℕ) (t : EventType) (p : Option Bytes) (m : ActorManager)
    → IsWellFormed m
    → IsWellFormed (new_message r t p m)
unfolding new_message
new_message-IsWellFormed r t p m v = tables-IsWellFormed m _ refl refl refl refl refl refl v

mark_reload-IsWellFormed :
    (i : ℕ) (m : ActorManager)
    → contains i (keys m.childrens) ≡ true
    → IsWellFormed m
    → IsWellFormed (mark_reload i m)
unfolding mark_reload
mark_reload-IsWellFormed i m h v = record {
  positive = v.positive;
  table = v.table;
  pending = mark_reload-IsPending v.pending i h;
}

mark_stop-IsWellFormed :
    (i : ℕ) (m : ActorManager)
    → contains i (keys m.childrens) ≡ true
    → IsWellFormed m
    → IsWellFormed (mark_stop i m)
unfolding mark_stop
mark_stop-IsWellFormed i m h v = record {
  positive = v.positive;
  table = v.table;
  pending = mark_stop-IsPending v.pending i h;
}

abbrev pub IsWithin : Childrens → ActorManager → Type 0
IsWithin cs m = (i : ℕ) → contains i (keys cs) ≡ true → contains i (keys m.childrens) ≡ true

head-IsWithin :
    (i : ℕ) (d : ActorMetaData) (cs : Childrens) (m : ActorManager)
    → IsWithin ((i, d) ∷ cs) m
    → contains i (keys m.childrens) ≡ true
unfolding contains
head-IsWithin i d cs m w = w i (ground arith)

tail-IsWithin :
    (i : ℕ) (d : ActorMetaData) (cs : Childrens) (m : ActorManager)
    → IsWithin ((i, d) ∷ cs) m
    → IsWithin cs m
unfolding contains
tail-IsWithin i d cs m w j h = w j (ground arith)

pub stop_all_for_reload-IsWellFormed :
    (msg : ℕ) (cs : Childrens) (m : ActorManager)
    → IsWithin cs m
    → IsWellFormed m
    → IsWellFormed (stop_all_for_reload msg cs m)
unfolding stop_all_for_reload mark_reload
stop_all_for_reload-IsWellFormed msg [] m w v = v
stop_all_for_reload-IsWellFormed msg ((i, d) ∷ cs) m w v =
    stop_all_for_reload-IsWellFormed msg cs _ (tail-IsWithin i d cs m w) (
      mark_reload-IsWellFormed i (emit (sent d.mailbox msg) m) (head-IsWithin i d cs m w)
        (emit-IsWellFormed _ m v))

pub stop_named_for_reload-IsWellFormed :
    (name : Bytes) (msg : ℕ) (cs : Childrens) (m : ActorManager)
    → IsWithin cs m
    → IsWellFormed m
    → IsWellFormed (stop_named_for_reload name msg cs m).0
unfolding stop_named_for_reload mark_reload
stop_named_for_reload-IsWellFormed name msg [] m w v = v
stop_named_for_reload-IsWellFormed name msg ((i, d) ∷ cs) m w v =
    elim (Bool-cases (bytes_eq d.module_name name)) [
      | inl e ↦ rw e (
          mark_reload-IsWellFormed i (emit (sent d.mailbox msg) m) (head-IsWithin i d cs m w)
            (emit-IsWellFormed _ m v))
      | inr e ↦ rw e (stop_named_for_reload-IsWellFormed name msg cs m (tail-IsWithin i d cs m w) v)
    ]

pub stop_each-IsWellFormed :
    (msg : ℕ) (cs : Childrens) (m : ActorManager)
    → IsWithin cs m
    → IsWellFormed m
    → IsWellFormed (stop_each msg cs m)
unfolding stop_each mark_stop
stop_each-IsWellFormed msg [] m w v = v
stop_each-IsWellFormed msg ((i, d) ∷ cs) m w v =
    stop_each-IsWellFormed msg cs _ (tail-IsWithin i d cs m w)
      (emit-IsWellFormed _ _ (mark_stop-IsWellFormed i m (head-IsWithin i d cs m w) v))

pub stop_named-IsWellFormed :
    (name : Bytes) (cs : Childrens) (m : ActorManager)
    → IsWithin cs m
    → IsWellFormed m
    → IsWellFormed (stop_named name cs m)
unfolding stop_named new_message
stop_named-IsWellFormed name [] m w v = v
stop_named-IsWellFormed name ((i, d) ∷ cs) m w v = elim (Bool-cases (bytes_eq d.module_name name)) [
  | inl e ↦ rw e (
      emit-IsWellFormed _ _ (
        mark_stop-IsWellFormed i (new_message 1 cmd_module_stop none m) (head-IsWithin i d cs m w)
          (new_message-IsWellFormed _ _ _ m v)))
  | inr e ↦ rw e (stop_named-IsWellFormed name cs m (tail-IsWithin i d cs m w) v)
]
