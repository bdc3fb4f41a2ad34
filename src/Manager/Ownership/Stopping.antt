-- ===== src/Manager/Ownership/Stopping.antt =====
-- The messages that tell children to stop have a reference for each send, and one for a release.
use acnet.Prelude.{
  ◌≡◌, refl, ◌+◌, Bool, true, false, if◌then◌else◌, inl, inr, none, List, [], ◌∷◌, ℕ, suc, max,
  arith, Bytes, Option, bytes_eq, codes, is_empty, length, contains, insert, Bool-cases, ◌∙◌, ap,
  subst,
}
use acnet.Message.{EventType, cmd_module_stop}
use acnet.Plugin.{Loader}
use acnet.Manager.State.{
  ActorMetaData, Childrens, ActorManager, sent, released, emit, new_message, mark_reload, mark_stop,
}
use acnet.Manager.Tables.{keys, IsPending, IsWellFormed}
use acnet.Manager.Handlers.{
  stop_all_for_reload, stop_named_for_reload, stop_for_all, stop_for_one, search_module_and_remove,
  stop_each, handle_cmd_exit, stop_named,
}
use acnet.Manager.Loading.{load_modules}
use acnet.Manager.Ownership.{
  refs, uses, IsBalanced, Uses, IsQuiet, IsQuiet-IsBalanced, load_modules-IsQuiet, IsQuiet-refl,
}

Uses-refl : (msg : ℕ) (m : ActorManager) → Uses msg 0 m m
Uses-refl msg m = record { same_next = refl; same_refs = λ i. refl; more_uses = λ i. ground arith }

pub Uses-sent : (msg mailbox : ℕ) (m : ActorManager) → Uses msg 1 m (emit (sent mailbox msg) m)
unfolding emit refs uses
Uses-sent msg mailbox m = record {
  same_next = refl;
  same_refs = λ i. omega arith;
  more_uses = λ i. refl;
}

Uses-released : (msg : ℕ) (m : ActorManager) → Uses msg 1 m (emit (released msg) m)
unfolding emit refs uses
Uses-released msg m = record {
  same_next = refl;
  same_refs = λ i. omega arith;
  more_uses = λ i. refl;
}

Uses-trans :
    (msg a b : ℕ) (m n o : ActorManager) → Uses msg a m n → Uses msg b n o → Uses msg (a + b) m o
Uses-trans msg a b m n o u v = record {
  same_next = v.same_next ∙ u.same_next;
  same_refs = λ i. v.same_refs i ∙ u.same_refs i;
  more_uses = λ i. ground (arith, u.more_uses i, v.more_uses i);
}

-- A message that is allocated with as many references as it is then used leaves the balance.
pub settle :
    (r : ℕ) (t : EventType) (p : Option Bytes) (m n : ActorManager)
    → IsBalanced m
    → Uses m.next_message r (new_message r t p m) n
    → IsBalanced n
unfolding new_message emit refs uses
settle r t p m n b u = record {
  balanced = λ i. ground (arith, u.same_refs i, u.more_uses i, b.balanced i);
  fresh = λ i h. ground (arith, u.same_refs i, u.same_next, b.fresh i);
}

Uses-suc :
    (msg b : ℕ) (m n o : ActorManager) → Uses msg 1 m n → Uses msg b n o → Uses msg (suc b) m o
Uses-suc msg b m n o u v = record {
  same_next = v.same_next ∙ u.same_next;
  same_refs = λ i. v.same_refs i ∙ u.same_refs i;
  more_uses = λ i. ground (arith, u.more_uses i, v.more_uses i);
}

stop_all_for_reload-Uses :
    (msg : ℕ) (cs : Childrens) (m : ActorManager)
    → Uses msg (length cs) m (stop_all_for_reload msg cs m)
unfolding stop_all_for_reload mark_reload
stop_all_for_reload-Uses msg [] m = Uses-refl msg m
stop_all_for_reload-Uses msg ((i, d) ∷ cs) m =
    let n = mark_reload i (emit (sent d.mailbox msg) m) in
    let s = Uses-sent msg d.mailbox m in
    let u : Uses msg 1 m n = record {
      same_next = s.same_next;
      same_refs = s.same_refs;
      more_uses = s.more_uses;
    } in
    Uses-suc msg (length cs) m n _ u (stop_all_for_reload-Uses msg cs n)

stop_each-Uses :
    (msg : ℕ) (cs : Childrens) (m : ActorManager) → Uses msg (length cs) m (stop_each msg cs m)
unfolding stop_each mark_stop emit
stop_each-Uses msg [] m = Uses-refl msg m
stop_each-Uses msg ((i, d) ∷ cs) m =
    let n = emit (sent d.mailbox msg) (mark_stop i m) in
    let s = Uses-sent msg d.mailbox m in
    let u : Uses msg 1 m n = record {
      same_next = s.same_next;
      same_refs = s.same_refs;
      more_uses = s.more_uses;
    } in
    Uses-suc msg (length cs) m n _ u (stop_each-Uses msg cs n)

stop_named_for_reload-Uses :
    (name : Bytes) (msg : ℕ) (cs : Childrens) (m : ActorManager)
    → let r = stop_named_for_reload name msg cs m in Uses msg (if r.1 then 1 else 0) m r.0
unfolding stop_named_for_reload mark_reload
stop_named_for_reload-Uses name msg [] m = Uses-refl msg m
stop_named_for_reload-Uses name msg ((i, d) ∷ cs) m =
    elim (Bool-cases (bytes_eq d.module_name name)) [
      | inl e ↦
          let s = Uses-sent msg d.mailbox m in
          rw e
            (record { same_next = s.same_next; same_refs = s.same_refs; more_uses = s.more_uses })
      | inr e ↦ rw e (stop_named_for_reload-Uses name msg cs m)
    ]

stop_for_one-Uses :
    (name : Bytes) (msg : ℕ) (m : ActorManager) → Uses msg 1 m (stop_for_one name msg m).0
unfolding stop_for_one
stop_for_one-Uses name msg m =
    let r = stop_named_for_reload name msg m.childrens m in
    let u = stop_named_for_reload-Uses name msg m.childrens m in
    elim (Bool-cases r.1) [
      | inl e ↦ simp e (rw e at u)
      | inr e ↦ simp e (Uses-trans msg 0 1 m r.0 _ (rw e at u) (Uses-released msg r.0))
    ]

-- Marking leaves somebody pending, and without children nobody is.
marked :
    (msg : ℕ) (cs : Childrens) (m : ActorManager)
    → is_empty m.pending_reload ≡ false
    → is_empty (stop_all_for_reload msg cs m).pending_reload ≡ false
unfolding stop_all_for_reload mark_reload insert emit
marked msg [] m h = h
marked msg ((i, d) ∷ cs) m h = marked msg cs _ (ground arith)

marked_some :
    (msg i : ℕ) (d : ActorMetaData) (cs : Childrens) (m : ActorManager)
    → is_empty (stop_all_for_reload msg ((i, d) ∷ cs) m).pending_reload ≡ false
unfolding stop_all_for_reload mark_reload insert emit contains
marked_some msg i d cs m = marked msg cs _ (ground arith)

none_pending : (cs : Childrens) (r s t : List ℕ) → IsPending cs r s t → cs ≡ [] → is_empty r ≡ true
unfolding contains
none_pending cs [] s t v e = refl
none_pending cs (i ∷ r) s t v e =
    ground (arith, v.reload_known i, ap (λ (c : Childrens). contains i (keys c)) e)

-- The end of `stop_for_all`, after the loop.
abbrev reload_if_none : Loader → ℕ → ActorManager → ActorManager × Bool
reload_if_none l msg m =
    if is_empty m.pending_reload then (load_modules l (emit (released msg) m), true) else (m, true)

-- The message of a reload of all modules is sent to each child, or released where there is none.
reload_if_none-Uses :
    (l : Loader) (msg : ℕ) (cs : Childrens) (m : ActorManager)
    → (cs ≡ [] → is_empty m.pending_reload ≡ true)
    → (o : ActorManager) × Uses msg (max (length cs) 1) m o
      × IsQuiet o (reload_if_none l msg (stop_all_for_reload msg cs m)).0
reload_if_none-Uses l msg [] m h = (
  emit (released msg) m,
  Uses-released msg m,
  unfold stop_all_for_reload in simp (h refl) (load_modules-IsQuiet l (emit (released msg) m)),
)
reload_if_none-Uses l msg ((i, d) ∷ cs) m h =
    let u = stop_all_for_reload-Uses msg ((i, d) ∷ cs) m in
    (
      stop_all_for_reload msg ((i, d) ∷ cs) m,
      subst (λ c. Uses msg c m (stop_all_for_reload msg ((i, d) ∷ cs) m)) (omega arith) u,
      simp (marked_some msg i d cs m) (IsQuiet-refl _),
    )

pub search_module_and_remove-IsBalanced :
    (l : Loader) (name : Bytes) (m : ActorManager)
    → IsWellFormed m
    → IsBalanced m
    → IsBalanced (search_module_and_remove l name m).0
unfolding search_module_and_remove stop_for_all new_message
search_module_and_remove-IsBalanced l name m v b = elim (Bool-cases (bytes_eq name (codes "all"))) [
  | inl e ↦
      let n : ActorManager = record m { reload_all_flag = true } in
      let c : IsBalanced n = record { balanced = b.balanced; fresh = b.fresh } in
      let (o, u, q) =
        reload_if_none-Uses l m.next_message m.childrens
          (new_message (max (length m.childrens) 1) cmd_module_stop none n)
          (unfold new_message emit in none_pending m.childrens _ _ _ v.pending) in
      simp e (
        IsQuiet-IsBalanced o _ q (settle (max (length m.childrens) 1) cmd_module_stop none n o c u))
  | inr e ↦
      let n : ActorManager = record m { reload_all_flag = false } in
      let c : IsBalanced n = record { balanced = b.balanced; fresh = b.fresh } in
      simp e (
        settle 1 cmd_module_stop none n _ c
          (stop_for_one-Uses name m.next_message (new_message 1 cmd_module_stop none n)))
]

pub handle_cmd_exit-IsBalanced :
    (m : ActorManager) → IsBalanced m → IsBalanced (handle_cmd_exit m).0
unfolding handle_cmd_exit
handle_cmd_exit-IsBalanced m b = elim (Bool-cases (is_empty m.childrens)) [
  | inl e ↦ simp e b
  | inr e ↦ simp e (
      settle (length m.childrens) cmd_module_stop none m _ b
        (stop_each-Uses m.next_message m.childrens _))
]

pub stop_named-IsBalanced :
    (name : Bytes) (cs : Childrens) (m : ActorManager)
    → IsBalanced m
    → IsBalanced (stop_named name cs m)
unfolding stop_named mark_stop
stop_named-IsBalanced name [] m b = b
stop_named-IsBalanced name ((i, d) ∷ cs) m b = elim (Bool-cases (bytes_eq d.module_name name)) [
  | inl e ↦
      let s = Uses-sent m.next_message d.mailbox (new_message 1 cmd_module_stop none m) in
      rw e (
        settle 1 cmd_module_stop none m _ b
          (record { same_next = s.same_next; same_refs = s.same_refs; more_uses = s.more_uses }))
  | inr e ↦ rw e (stop_named-IsBalanced name cs m b)
]
