-- ===== src/Actor/CrashLoop.antt =====
-- What a launched module makes the manager do.
use acnet.Prelude.{
  ℕ, ◌==◌, ◌≡◌, refl, ◌∙◌, ap, true, false, ◌||◌, none, some, [], ◌∷◌, arith, contains, insert,
  contains-insert, contains-erase, ==-refl, codes, Bool-cases, inl, inr, ◌⊎◌,
}
use acnet.Message.{EventMessage, module_exited, crash_report, none_event, event_type_to_string}
use acnet.Plugin.{LoadedModule}
use acnet.Manager.State.{ActorManager, ActorMetaData, enqueued, consumed, find, emit}
use acnet.Manager.Loading.{restart_module, launch}
use acnet.Manager.Handlers.{handle_event_crash, handle_event_exit, exit_found, unmark}
use acnet.Manager.EventLoop.{Delivery, deliver, dispatch, delivers, run, perform}
use acnet.Manager.Tables.{IsWellFormed, find-actor_id}
use acnet.Actor.{Runtime, run_coroutine, launch_actor, messages}

abbrev pub crash_of : Runtime → ℕ → EventMessage
crash_of rt i = record {
  ref = 1;
  type = crash_report;
  sender_id = i;
  payload = some (rt.format i (event_type_to_string none_event) (codes "boom!boom!boom!"));
}

abbrev pub exit_of : ℕ → EventMessage
exit_of i = record { ref = 1; type = module_exited; sender_id = i; payload = none }

messages-launched :
    (rt : Runtime) (lib : LoadedModule) (i : ℕ)
    → (lib.create_func == 0) ≡ false
    → (lib.destroy_func == 0) ≡ false
    → (rt.create lib.create_func i == 0) ≡ false
    → messages (launch_actor rt lib i) ≡ crash_of rt i ∷ exit_of i ∷ []
unfolding messages launch_actor run_coroutine
messages-launched rt lib i c d a = simp (c, d, a) refl

-- A crash report of the child and its exit event, received in this order.
crash_exit-delivered :
    (i : ℕ) (d : ActorMetaData) (lib : LoadedModule) (m : ActorManager) (x y : Delivery)
    → IsWellFormed m
    → m.is_running ≡ true
    → find i m.childrens ≡ some d
    → d.creator ≡ some lib
    → contains i m.pending_reload ≡ false
    → contains i m.pending_stop ≡ false
    → x.body.type ≡ crash_report
    → x.body.sender_id ≡ i
    → y.body.type ≡ module_exited
    → y.body.sender_id ≡ i
    → let (n, done) = run (delivers x ∷ delivers y ∷ []) m in
      (done ≡ false)
      × (n.childrens ≡ m.childrens)
      × (n.log
          ≡ consumed y.message
            ∷ enqueued (record { library = lib; actor_id = i; mailbox = d.mailbox })
            ∷ consumed x.message
            ∷ m.log)
unfolding run perform deliver dispatch emit handle_event_crash handle_event_exit exit_found unmark
    restart_module launch
crash_exit-delivered i d lib m x y v r f c p s tx sx ty sy = ground (
  arith,
  find-actor_id m.next_id m.next_mailbox i m.childrens {d = d} v.table,
  contains-insert i i m.pending_restart,
  contains-erase i i (insert i m.pending_restart),
  ==-refl i,
)

pair_inverts : (a b c d : EventMessage) → a ∷ b ∷ [] ≡ c ∷ d ∷ [] → (a ≡ c) × (b ≡ d)
pair_inverts a b c d h = (ground arith, ground arith)

-- A child of the running manager, not to be reloaded or stopped, is launched from a library with
-- both functions, and its creation succeeds. Its coroutine sends two messages to the manager; when
-- the manager has received them, the event loop goes on, the table is as it was, and the same module
-- with the same identifier and mailbox has been enqueued again, once.
pub launched-relaunches :
    (rt : Runtime) (i : ℕ) (d : ActorMetaData) (lib : LoadedModule) (m : ActorManager)
    (x y : Delivery)
    → IsWellFormed m
    → m.is_running ≡ true
    → find i m.childrens ≡ some d
    → d.creator ≡ some lib
    → contains i m.pending_reload ≡ false
    → contains i m.pending_stop ≡ false
    → (lib.create_func == 0) ≡ false
    → (lib.destroy_func == 0) ≡ false
    → (rt.create lib.create_func i == 0) ≡ false
    → x.body ∷ y.body ∷ [] ≡ messages (launch_actor rt lib i)
    → let (n, done) = run (delivers x ∷ delivers y ∷ []) m in
      (done ≡ false)
      × (n.childrens ≡ m.childrens)
      × (n.log
          ≡ consumed y.message
            ∷ enqueued (record { library = lib; actor_id = i; mailbox = d.mailbox })
            ∷ consumed x.message
            ∷ m.log)
launched-relaunches rt i d lib m x y v r f c p s nc nd na e =
    let (ex, ey) = pair_inverts _ _ _ _ (e ∙ messages-launched rt lib i nc nd na) in
    crash_exit-delivered i d lib m x y v r f c p s (ap (λ b. b.type) ex) (ap (λ b. b.sender_id) ex)
      (ap (λ b. b.type) ey) (ap (λ b. b.sender_id) ey)

-- Whatever the library and the module answer, the last message of a launched coroutine, and no other
-- one, is the exit event of its identifier; all its messages have one reference and its identifier.
pub launch_actor-exits :
    (rt : Runtime) (lib : LoadedModule) (i : ℕ)
    → (messages (launch_actor rt lib i) ≡ exit_of i ∷ [])
      ⊎ (messages (launch_actor rt lib i) ≡ crash_of rt i ∷ exit_of i ∷ [])
unfolding messages launch_actor run_coroutine
launch_actor-exits rt lib i = elim (Bool-cases (lib.create_func == 0 || lib.destroy_func == 0)) [
  | inl e ↦ inl (simp e refl)
  | inr e ↦ elim (Bool-cases (rt.create lib.create_func i == 0)) [
    | inl k ↦ inl (simp (e, k) refl)
    | inr k ↦ inr (simp (e, k) refl)
  ]
]
