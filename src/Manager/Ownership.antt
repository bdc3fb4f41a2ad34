-- ===== src/Manager/Ownership.antt =====
-- The references of the messages that the manager allocates: each message gets as many as it is
-- sent and released.
pub mod Stopping
pub mod Handling
use acnet.Prelude.{
  ◌≡◌, refl, ◌==◌, ◌+◌, ◌≤◌, Bool, true, false, if◌then◌else◌, inl, inr, none, some, List, [], ◌∷◌,
  ℕ, suc, arith, Bytes, Option, bytes_eq, is_empty, length, Bool-cases, Option-cases, ◌∙◌, ap,
}
use acnet.Message.{EventType, EventMessage}
use acnet.Plugin.{AcModule, AcConfig, Loader, LoadedModule}
use acnet.Manager.State.{
  ActorMetaData, Childrens, Launch, Effect, allocated, sent, released, consumed, enqueued,
  enqueued_batch, looped, ActorManager, find, find_name, emit, new_message, mark_reload, mark_stop,
}
use acnet.Manager.Loading.{
  library_file, generate_creator, add_child, load_each, load_modules, relaunch, reload_found,
  reload_search, reload_module, reload_one, reload_each, reload_all_modules, restart_module,
}

-- The references that message `i` was allocated with, and those that were given away or released.
abbrev pub refs_of : ℕ → Effect → ℕ
refs_of i (allocated j msg) = if i == j then msg.ref else 0
refs_of i _ = 0

abbrev pub uses_of : ℕ → Effect → ℕ
uses_of i (sent mailbox j) = if i == j then 1 else 0
uses_of i (released j) = if i == j then 1 else 0
uses_of i _ = 0

unfoldable pub refs : ℕ → List Effect → ℕ
refs i [] = 0
refs i (e ∷ es) = refs_of i e + refs i es

unfoldable pub uses : ℕ → List Effect → ℕ
uses i [] = 0
uses i (e ∷ es) = uses_of i e + uses i es

pub record IsBalanced (m : ActorManager) : Type 0 where
  pub balanced : (i : ℕ) → refs i m.log ≡ uses i m.log
  pub fresh : (i : ℕ) → m.next_message ≤ i → refs i m.log ≡ 0

-- Going from `m` to `n`, `count` uses of message `msg` are added and nothing is allocated.
pub record Uses (msg count : ℕ) (m n : ActorManager) : Type 0 where
  pub same_next : n.next_message ≡ m.next_message
  pub same_refs : (i : ℕ) → refs i n.log ≡ refs i m.log
  pub more_uses : (i : ℕ) → uses i n.log ≡ (if i == msg then count else 0) + uses i m.log

-- The modules are loaded and launched without messages.
pub record IsQuiet (m n : ActorManager) : Type 0 where
  pub same_next : n.next_message ≡ m.next_message
  pub same_refs : (i : ℕ) → refs i n.log ≡ refs i m.log
  pub same_uses : (i : ℕ) → uses i n.log ≡ uses i m.log

abbrev pub IsLaunch : Effect → Type 0
IsLaunch e = (i : ℕ) → (refs_of i e ≡ 0) × (uses_of i e ≡ 0)

IsQuiet-same : (m n : ActorManager) → n.next_message ≡ m.next_message → n.log ≡ m.log → IsQuiet m n
IsQuiet-same m n e f = record {
  same_next = e;
  same_refs = λ i. ap (refs i) f;
  same_uses = λ i. ap (uses i) f;
}

pub IsQuiet-emit :
    (e : Effect) (m n : ActorManager) → IsLaunch e → IsQuiet m n → IsQuiet m (emit e n)
unfolding emit refs uses
IsQuiet-emit e m n l q = record {
  same_next = q.same_next;
  same_refs = λ i. omega (arith, (l i).0, q.same_refs i);
  same_uses = λ i. omega (arith, (l i).1, q.same_uses i);
}

pub IsQuiet-IsBalanced : (m n : ActorManager) → IsQuiet m n → IsBalanced m → IsBalanced n
IsQuiet-IsBalanced m n q b = record {
  balanced = λ i. omega (arith, q.same_refs i, q.same_uses i, b.balanced i);
  fresh = λ i h. omega (arith, q.same_refs i, q.same_next, b.fresh i);
}

-- The log and the message counter, which loading leaves alone.
abbrev mail : ActorManager → ℕ × List Effect
mail m = (m.next_message, m.log)

pub mail-add_child :
    (name : Bytes) (lib : LoadedModule) (m : ActorManager) → mail (add_child name lib m).0 ≡ mail m
unfolding add_child
mail-add_child name lib m = refl

mail-relaunch :
    (i : ℕ) (d : ActorMetaData) (lib : LoadedModule) (m : ActorManager)
    → mail (relaunch i d lib m).0 ≡ mail m
unfolding relaunch
mail-relaunch i d lib m = refl

mail-load_each :
    (l : Loader) (c : AcConfig) (mods : List AcModule) (m : ActorManager) (tasks : List Launch)
    → mail (load_each l c mods m tasks).0 ≡ mail m
unfolding load_each
mail-load_each l c [] m tasks = refl
mail-load_each l c (md ∷ mods) m tasks =
    elim (Option-cases (generate_creator l (library_file c md))) [
      | inl e ↦ rw (e, load_each) (mail-load_each l c mods m tasks)
      | inr (lib, e) ↦
          rw (e, load_each)
            (mail-load_each l c mods (add_child md.module_name lib m).0 _
              ∙ mail-add_child md.module_name lib m)
    ]

mail-reload_one :
    (md : AcModule) (lib : LoadedModule) (m : ActorManager) → mail (reload_one md lib m).0 ≡ mail m
unfolding reload_one
mail-reload_one md lib m = elim (Option-cases (find_name md.module_name m.childrens)) [
  | inl e ↦ rw (e, reload_one) (mail-add_child md.module_name lib m)
  | inr ((i, d), e) ↦ rw (e, reload_one) (mail-relaunch i d lib m)
]

mail-reload_each :
    (l : Loader) (c : AcConfig) (mods : List AcModule) (m : ActorManager) (tasks : List Launch)
    → mail (reload_each l c mods m tasks).0 ≡ mail m
unfolding reload_each
mail-reload_each l c [] m tasks = refl
mail-reload_each l c (md ∷ mods) m tasks =
    elim (Option-cases (generate_creator l (library_file c md))) [
      | inl e ↦ rw (e, reload_each) (mail-reload_each l c mods m tasks)
      | inr (lib, e) ↦
          rw (e, reload_each)
            (mail-reload_each l c mods (reload_one md lib m).0 _ ∙ mail-reload_one md lib m)
    ]

pub IsQuiet-of_mail : (m n : ActorManager) → mail n ≡ mail m → IsQuiet m n
IsQuiet-of_mail m n e = IsQuiet-same m n (ap (λ p. p.0) e) (ap (λ p. p.1) e)

pub IsQuiet-refl : (m : ActorManager) → IsQuiet m m
IsQuiet-refl m = IsQuiet-of_mail m m refl

pub load_modules-IsQuiet : (l : Loader) (m : ActorManager) → IsQuiet m (load_modules l m)
unfolding load_modules
load_modules-IsQuiet l m = elim (Bool-cases (is_empty m.config.modules)) [
  | inl e ↦ simp e (IsQuiet-refl m)
  | inr e ↦ simp e (
      IsQuiet-emit _ m _ (λ i. (refl, refl))
        (IsQuiet-of_mail m _ (mail-load_each l m.config m.config.modules m [])))
]

pub reload_all_modules-IsQuiet :
    (l : Loader) (m : ActorManager) → IsQuiet m (reload_all_modules l m)
unfolding reload_all_modules
reload_all_modules-IsQuiet l m = elim (Bool-cases (is_empty m.config.modules)) [
  | inl e ↦ simp e (IsQuiet-refl m)
  | inr e ↦ simp e (
      IsQuiet-emit _ m _ (λ i. (refl, refl))
        (IsQuiet-of_mail m _ (mail-reload_each l m.config m.config.modules m [])))
]

pub restart_module-IsQuiet : (d : ActorMetaData) (m : ActorManager) → IsQuiet m (restart_module d m)
unfolding restart_module
restart_module-IsQuiet d m = elim (Option-cases d.creator) [
  | inl e ↦ rw (e, restart_module) (IsQuiet-refl m)
  | inr (lib, e) ↦ rw (e, restart_module) (IsQuiet-emit _ m m (λ i. (refl, refl)) (IsQuiet-refl m))
]

reload_found-IsQuiet :
    (l : Loader) (md : AcModule) (i : ℕ) (m : ActorManager) → IsQuiet m (reload_found l md i m)
unfolding reload_found
reload_found-IsQuiet l md i m =
    elim (Option-cases (generate_creator l (library_file m.config md))) [
      | inl e ↦ rw (e, reload_found) (IsQuiet-refl m)
      | inr (lib, e) ↦ elim (Bool-cases (i == 0)) [
        | inl z ↦
            rw (e, reload_found, z)
              (IsQuiet-emit _ m _ (λ i. (refl, refl))
                (IsQuiet-of_mail m _ (mail-add_child md.module_name lib m)))
        | inr z ↦ elim (Option-cases (find i m.childrens)) [
          | inl n ↦ rw (e, reload_found, z, n) (IsQuiet-refl m)
          | inr (d, s) ↦
              rw (e, reload_found, z, s)
                (IsQuiet-emit _ m _ (λ i. (refl, refl))
                  (IsQuiet-of_mail m _ (mail-relaunch i d lib m)))
        ]
      ]
    ]

reload_search-IsQuiet :
    (l : Loader) (mods : List AcModule) (i : ℕ) (name : Bytes) (m : ActorManager)
    → IsQuiet m (reload_search l mods i name m)
unfolding reload_search
reload_search-IsQuiet l [] i name m = IsQuiet-refl m
reload_search-IsQuiet l (md ∷ mods) i name m = elim (Bool-cases (bytes_eq name md.module_name)) [
  | inl e ↦ rw e (reload_found-IsQuiet l md i m)
  | inr e ↦ rw e (reload_search-IsQuiet l mods i name m)
]

pub reload_module-IsQuiet :
    (l : Loader) (i : ℕ) (name : Bytes) (m : ActorManager) → IsQuiet m (reload_module l i name m)
unfolding reload_module
reload_module-IsQuiet l i name m = reload_search-IsQuiet l m.config.modules i name m
