-- ===== src/Manager/Shutdown.antt =====
-- `ActorManager::Shutdown` to the end, src/core/actor_manager.cc: each child is told to stop, and once
-- every child has exited, the event loop returns.
use acnet.Prelude.{
  ◌≡◌, refl, ◌-◌, true, false, none, List, [], ◌∷◌, ℕ, map, ◌≢◌, is_empty, length, ap, ◌∙◌, subst,
  suc, ◌++◌, if◌then◌else◌,
}
use acnet.Message.{EventType, EventMessage, cmd_exit, cmd_module_stop}
use acnet.Manager.State.{
  Childrens, ActorManager, emit, new_message, mark_stop, Effect, allocated, consumed, sent,
  own_mailbox,
}
use acnet.Manager.Tables.{IsTable, IsWellFormed}
use acnet.Manager.Handlers.{stop_each, handle_cmd_exit}
use acnet.Manager.EventLoop.{
  Delivery, dispatch, count_down, deliver, shutdown, Action, delivers, shuts_down, perform, run,
}
use acnet.Manager.Exits.{
  AreExits, IsFrom, not-is_empty_of_contains, Ended, head-contains, none_remaining, run_exits,
  run_prefix, stop_each-keeps,
}

run_last :
    (a : Action) (as' : List Action) (m n : ActorManager)
    → perform a m ≡ (n, true)
    → run (a ∷ as') m ≡ (n, true)
unfolding run
run_last a as' m n e = simp e

run_more :
    (a : Action) (as' : List Action) (m n : ActorManager)
    → perform a m ≡ (n, false)
    → run (a ∷ as') m ≡ run as' n
unfolding run
run_more a as' m n e = simp e

-- The manager once the exit command has been posted, and once its message has been handled.
posted : ActorManager → ActorManager
posted m =
    emit (sent own_mailbox m.next_message)
      (new_message 1 cmd_exit none (record m { is_running = false }))

stopping : Delivery → ActorManager → ActorManager
stopping x m =
    emit (consumed x.message) (
      stop_each m.next_message m.childrens
        (new_message (length m.childrens) cmd_module_stop none m))

shutdown-posted :
    (m : ActorManager) → m.is_running ≡ true → perform shuts_down m ≡ (posted m, false)
unfolding perform shutdown posted
shutdown-posted m h = simp h

exit-alone :
    (x : Delivery) (m : ActorManager)
    → x.body.type ≡ cmd_exit
    → is_empty m.childrens ≡ true
    → perform (delivers x) m ≡ (emit (consumed x.message) (count_down m), true)
unfolding perform deliver dispatch handle_cmd_exit
exit-alone x m t e = rw t (simp e)

exit-stopping :
    (x : Delivery) (m : ActorManager)
    → x.body.type ≡ cmd_exit
    → is_empty m.childrens ≡ false
    → perform (delivers x) m ≡ (stopping x m, false)
unfolding perform deliver dispatch handle_cmd_exit stopping
exit-stopping x m t e = rw t (simp e)

stopping-keeps :
    (x : Delivery) (m : ActorManager)
    → let n = stopping x (posted m) in
      (n.is_running ≡ false)
      × (n.childrens ≡ m.childrens)
      × (n.main_latch ≡ m.main_latch)
      × (n.next_id ≡ m.next_id)
      × (n.next_mailbox ≡ m.next_mailbox)
unfolding stopping emit posted new_message
stopping-keeps x m = stop_each-keeps _ m.childrens _

-- What the commands have written to the log: the exit command, and, where there is a child, one stop
-- message with one reference for each child, sent to the mailbox of each.
abbrev pub stops : ℕ → Childrens → List Effect → List Effect
stops msg [] log = log
stops msg ((i, d) ∷ cs) log = stops msg cs (sent d.mailbox msg ∷ log)

abbrev pub command_message : ℕ → EventType → EventMessage
command_message ref type = record { ref = ref; type = type; sender_id = 0; payload = none }

abbrev pub exit_log : ActorManager → List Effect
exit_log m =
    sent own_mailbox m.next_message ∷ allocated m.next_message (command_message 1 cmd_exit) ∷ m.log

abbrev pub stop_log : ActorManager → List Effect
stop_log m =
    if is_empty m.childrens
    then exit_log m
    else (stops (suc m.next_message) m.childrens (
        allocated (suc m.next_message) (command_message (length m.childrens) cmd_module_stop)
        ∷ exit_log m))

stop_each-log :
    (msg : ℕ) (cs : Childrens) (m : ActorManager) → (stop_each msg cs m).log ≡ stops msg cs m.log
unfolding stop_each emit mark_stop
stop_each-log msg [] m = refl
stop_each-log msg ((i, d) ∷ cs) m = stop_each-log msg cs (emit (sent d.mailbox msg) (mark_stop i m))

stopping-log :
    (x : Delivery) (m : ActorManager)
    → is_empty m.childrens ≡ false
    → (stopping x (posted m)).log ≡ consumed x.message ∷ stop_log m
unfolding stopping emit posted new_message
stopping-log x m e =
    ap (λ es. consumed x.message ∷ es) (stop_each-log (suc m.next_message) m.childrens _)
    ∙ simp e refl

-- The manager has been told to shut down by `commands`, `x` delivers its message, and `ds` are the
-- exit events of its children.
pub record IsShutDown (commands : List Action) (m : ActorManager) (x : Delivery)
    (ds : List Delivery) : Type 0 where
  -- At the end the loop has returned, no child is left, and the latch is counted down once.
  pub ended : Ended m (run (commands ++ delivers x ∷ map delivers ds) m)
  -- The loop has not returned before the last exit.
  pub waits :
      (es : List Delivery) (d : Delivery) (rest : List Delivery)
      → ds ≡ es ++ d ∷ rest
      → (run (commands ++ delivers x ∷ map delivers es) m).1 ≡ false
  -- The handler of the command has done nothing but to tell each child to stop.
  pub told : (run (commands ++ delivers x ∷ []) m).0.log ≡ consumed x.message ∷ stop_log m

-- The run up to the message of the command.
run_told :
    (m : ActorManager) (x : Delivery) (as' : List Action)
    → m.is_running ≡ true
    → x.body.type ≡ cmd_exit
    → is_empty m.childrens ≡ false
    → run (shuts_down ∷ delivers x ∷ as') m ≡ run as' (stopping x (posted m))
run_told m x as' h t e =
    run_more shuts_down (delivers x ∷ as') m (posted m) (shutdown-posted m h)
    ∙ run_more (delivers x) as' (posted m) (stopping x (posted m))
        (exit-stopping x (posted m) t (unfold posted emit new_message in e))

-- The run where there is no child.
run_alone :
    (m : ActorManager) (x : Delivery) (as' : List Action)
    → m.is_running ≡ true
    → x.body.type ≡ cmd_exit
    → is_empty m.childrens ≡ true
    → run (shuts_down ∷ delivers x ∷ as') m
      ≡ (emit (consumed x.message) (count_down (posted m)), true)
run_alone m x as' h t e =
    run_more shuts_down (delivers x ∷ as') m (posted m) (shutdown-posted m h)
    ∙ run_last (delivers x) as' (posted m) _
        (exit-alone x (posted m) t (unfold posted emit new_message in e))

not-split : (es : List Delivery) (d : Delivery) (rest : List Delivery) → [] ≢ es ++ d ∷ rest
not-split [] d rest = λ q. cc
not-split (e ∷ es) d rest = λ q. cc

-- `Shutdown` is carried out: from a well-formed running manager, after the command and the delivery of
-- its message, one stop message has been sent to the mailbox of each child, with as many references as
-- there are children. One exit event of each child, in any order and of no other sender, then ends the
-- event loop with no child left and the latch counted down once, and the loop has not returned before
-- the last of the exits; where there is no child, it returns at once and no stop message is allocated.
pub shutdown-Ended :
    (m : ActorManager) (x : Delivery) (ds : List Delivery)
    → IsWellFormed m
    → m.is_running ≡ true
    → x.body.type ≡ cmd_exit
    → AreExits ds
    → IsFrom ds m.childrens
    → IsShutDown (shuts_down ∷ []) m x ds
unfolding count_down run stopping
shutdown-Ended m x [] v h t a f =
    let e = none_remaining m.childrens f in
    let q = run_alone m x [] h t e in
    record {
      ended = rw q (
          unfold posted emit new_message count_down in
          record { returned = refl; no_child = e; latch = refl });
      waits = λ es d rest k. absurd (not-split es d rest k);
      told = ap (λ r. r.0.log) q ∙ (unfold posted emit new_message count_down in simp e refl);
    }
shutdown-Ended m x (d ∷ ds) v h t a f =
    let e = not-is_empty_of_contains d.body.sender_id _ (head-contains d ds m.childrens f) in
    let n = stopping x (posted m) in
    let k = stopping-keeps x m in
    let table : IsTable n.next_id n.next_mailbox n.childrens = rw (k.1, k.3, k.4) v.table in
    let r = run_exits d ds n k.0 table a (rw k.1 f) in
    record {
      ended = rw (run_told m x (map delivers (d ∷ ds)) h t e) (record {
        returned = r.returned;
        no_child = r.no_child;
        latch = r.latch ∙ ap (λ t'. t' - 1) k.2;
      });
      waits = λ es y rest q.
          ap (λ p. p.1) (run_told m x (map delivers es) h t e)
          ∙ run_prefix es y rest n k.0 table (subst AreExits q a)
              (rw k.1 (subst (λ ds'. IsFrom ds' m.childrens) q f));
      told = ap (λ p. p.0.log) (run_told m x [] h t e) ∙ stopping-log x m e;
    }
