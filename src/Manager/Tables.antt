-- ===== src/Manager/Tables.antt =====
-- The invariant of the manager's tables, and what the operations of State.antt do to them.
use acnet.Prelude.{
  ℕ, suc, ◌≤◌, ◌<◌, ◌≡◌, refl, ◌==◌, true, false, not, ◌&&◌, none, some, List, [], ◌∷◌, arith,
  contains,
}
use acnet.Plugin.{LoadedModule}
use acnet.Manager.State.{ActorMetaData, Childrens, ActorManager, find, remove, set_creator}

abbrev pub keys : Childrens → List ℕ
keys [] = []
keys ((key, metadata) ∷ cs) = key ∷ keys cs

abbrev pub mailboxes : Childrens → List ℕ
mailboxes [] = []
mailboxes ((key, metadata) ∷ cs) = metadata.mailbox ∷ mailboxes cs

-- No two entries share an identifier or a mailbox; both are positive and were handed out, and the
-- metadata of an entry names its own identifier.
abbrev pub IsTable : ℕ → ℕ → Childrens → Type 0
IsTable n k [] = Unit {0}
IsTable n k ((key, metadata) ∷ cs) =
    ((0 < key)
      × (key < n)
      × (metadata.actor_id ≡ key)
      × (0 < metadata.mailbox)
      × (metadata.mailbox < k)
      × (contains key (keys cs) ≡ false)
      × (contains metadata.mailbox (mailboxes cs) ≡ false))
    × IsTable n k cs

-- Only children are pending, and none is to be restarted that is to be reloaded or stopped.
pub record IsPending (cs : Childrens) (reload stop restart : List ℕ) : Type 0 where
  pub reload_known : (i : ℕ) → contains i reload ≡ true → contains i (keys cs) ≡ true
  pub stop_known : (i : ℕ) → contains i stop ≡ true → contains i (keys cs) ≡ true
  pub restart_known : (i : ℕ) → contains i restart ≡ true → contains i (keys cs) ≡ true
  pub apart :
      (i : ℕ) → contains i restart ≡ true → (contains i reload ≡ false) × (contains i stop ≡ false)

pub record IsWellFormed (m : ActorManager) : Type 0 where
  pub positive : (0 < m.next_id) × (0 < m.next_mailbox)
  pub table : IsTable m.next_id m.next_mailbox m.childrens
  pub pending : IsPending m.childrens m.pending_reload m.pending_stop m.pending_restart

pub find-none : (i : ℕ) (cs : Childrens) → contains i (keys cs) ≡ false → find i cs ≡ none
unfolding find contains
find-none i [] h = refl
find-none i ((key, d) ∷ cs) h = ground (arith, find-none i cs)

pub contains_of_find :
    (i : ℕ) (cs : Childrens) {d : ActorMetaData} → find i cs ≡ some d → contains i (keys cs) ≡ true
unfolding find contains
contains_of_find i [] h = ground arith
contains_of_find i ((key, d) ∷ cs) {d = e} h = ground (arith, contains_of_find i cs {d = e})

-- The entry that is found names its identifier.
pub find-actor_id :
    (n k i : ℕ) (cs : Childrens) {d : ActorMetaData}
    → IsTable n k cs
    → find i cs ≡ some d
    → d.actor_id ≡ i
unfolding find
find-actor_id n k i [] t h = ground arith
find-actor_id n k i ((key, d) ∷ cs) {d = e} t h = ground (arith, find-actor_id n k i cs {d = e} t.1)

pub not-contains_zero : (n k : ℕ) (cs : Childrens) → IsTable n k cs → contains 0 (keys cs) ≡ false
unfolding contains
not-contains_zero n k [] t = refl
not-contains_zero n k ((key, d) ∷ cs) t = ground (arith, not-contains_zero n k cs t.1)

pub not-contains_of_le :
    (n k i : ℕ) (cs : Childrens) → IsTable n k cs → n ≤ i → contains i (keys cs) ≡ false
unfolding contains
not-contains_of_le n k i [] t h = refl
not-contains_of_le n k i ((key, d) ∷ cs) t h = ground (arith, not-contains_of_le n k i cs t.1)

mailbox-not-contains_of_le :
    (n k i : ℕ) (cs : Childrens) → IsTable n k cs → k ≤ i → contains i (mailboxes cs) ≡ false
unfolding contains
mailbox-not-contains_of_le n k i [] t h = refl
mailbox-not-contains_of_le n k i ((key, d) ∷ cs) t h =
    ground (arith, mailbox-not-contains_of_le n k i cs t.1)

IsTable-mono : (n k : ℕ) (cs : Childrens) → IsTable n k cs → IsTable (suc n) (suc k) cs
IsTable-mono n k [] t = tt
IsTable-mono n k ((key, d) ∷ cs) t =
    ((t.0.0, omega arith, t.0.2, t.0.3, omega arith, t.0.5, t.0.6), IsTable-mono n k cs t.1)

-- A fresh entry keeps the table.
pub add-IsTable :
    (n k : ℕ) (cs : Childrens) (d : ActorMetaData)
    → (0 < n) × (0 < k)
    → d.actor_id ≡ n
    → d.mailbox ≡ k
    → IsTable n k cs
    → IsTable (suc n) (suc k) ((n, d) ∷ cs)
add-IsTable n k cs d p e f t = (
  (
    p.0,
    omega arith,
    e,
    omega arith,
    omega arith,
    not-contains_of_le n k n cs t (omega arith),
    mailbox-not-contains_of_le n k d.mailbox cs t (omega arith),
  ),
  IsTable-mono n k cs t,
)

pub keys-set_creator :
    (i : ℕ) (lib : LoadedModule) (cs : Childrens) → keys (set_creator i lib cs) ≡ keys cs
unfolding set_creator
keys-set_creator i lib [] = refl
keys-set_creator i lib ((key, d) ∷ cs) = ground (arith, keys-set_creator i lib cs)

mailboxes-set_creator :
    (i : ℕ) (lib : LoadedModule) (cs : Childrens) → mailboxes (set_creator i lib cs) ≡ mailboxes cs
unfolding set_creator
mailboxes-set_creator i lib [] = refl
mailboxes-set_creator i lib ((key, d) ∷ cs) = ground (arith, mailboxes-set_creator i lib cs)

pub set_creator-IsTable :
    (n k i : ℕ) (lib : LoadedModule) (cs : Childrens)
    → IsTable n k cs
    → IsTable n k (set_creator i lib cs)
unfolding set_creator
set_creator-IsTable n k i lib [] t = tt
set_creator-IsTable n k i lib ((key, d) ∷ cs) t = ground (
  arith,
  set_creator-IsTable n k i lib cs t.1,
  keys-set_creator i lib cs,
  mailboxes-set_creator i lib cs,
)

remove_absent : (i : ℕ) (cs : Childrens) → contains i (keys cs) ≡ false → remove i cs ≡ cs
unfolding remove contains
remove_absent i [] h = refl
remove_absent i ((key, d) ∷ cs) h = ground (arith, remove_absent i cs)

pub contains-remove :
    (n k j i : ℕ) (cs : Childrens)
    → IsTable n k cs
    → contains j (keys (remove i cs)) ≡ (not (j == i) && contains j (keys cs))
unfolding remove contains
contains-remove n k j i [] t = ground arith
contains-remove n k j i ((key, d) ∷ cs) t = ground (arith, contains-remove n k j i cs t.1)

contains-remove_le :
    (j i : ℕ) (cs : Childrens)
    → contains j (keys cs) ≡ false
    → contains j (keys (remove i cs)) ≡ false
unfolding remove contains
contains-remove_le j i [] h = refl
contains-remove_le j i ((key, d) ∷ cs) h = ground (arith, contains-remove_le j i cs)

mailbox-contains-remove_le :
    (j i : ℕ) (cs : Childrens)
    → contains j (mailboxes cs) ≡ false
    → contains j (mailboxes (remove i cs)) ≡ false
unfolding remove contains
mailbox-contains-remove_le j i [] h = refl
mailbox-contains-remove_le j i ((key, d) ∷ cs) h = ground (arith, mailbox-contains-remove_le j i cs)

pub remove-IsTable : (n k i : ℕ) (cs : Childrens) → IsTable n k cs → IsTable n k (remove i cs)
unfolding remove
remove-IsTable n k i [] t = tt
remove-IsTable n k i ((key, d) ∷ cs) t = ground (
  arith,
  remove-IsTable n k i cs t.1,
  contains-remove_le key i cs,
  mailbox-contains-remove_le d.mailbox i cs,
)
