-- ===== src/MailQueue/Claims.antt =====
-- Who owns which slot while producers and the consumer of `MailQueue` interleave.
use mathlib.Core.Path.{ap₂}
use native.Mathlib.Decide.{dec_lt}
use acnet.Prelude.{
  ℕ, zero, suc, ◌+◌, ◌%◌, ◌≤◌, ◌<◌, ◌≡◌, ◌≢◌, ◌==◌, refl, Option, none, some, List, [], ◌∷◌, arith,
  update_at, mod_ne, Bool-cases, inl, inr, ◌⊎◌, sym, ◌∙◌, subst, ==-refl,
}
use acnet.MailQueue.{Slot, update}
use acnet.MailQueue.Threads.{
  Producer, resting, starting, loaded, seen, claimed, filled, Consumer, idle, holding, State,
}

-- The position that a producer owns.
abbrev pub owned : Producer → Option ℕ
owned (claimed x pos) = some pos
owned (filled x pos) = some pos
owned _ = none

-- The messages of the first `k` positions, newest first.
unfoldable pub listing : (ℕ → ℕ) → ℕ → List ℕ
listing f zero = []
listing f (suc k) = f k ∷ listing f k

-- A position of the ring: free or claimed, or published.
abbrev pub SlotInv : (f : ℕ → Slot) (N w : ℕ) (log : ℕ → ℕ) (p : ℕ) → Type 0
SlotInv f N w log p =
    ((f (p % N)).sequence ≡ p)
    ⊎ ((p < w) × ((f (p % N)).sequence ≡ suc p) × ((f (p % N)).message ≡ log p))

abbrev pub Owns : (f : ℕ → Slot) (N r w : ℕ) (log : ℕ → ℕ) (x pos : ℕ) → Type 0
Owns f N r w log x pos = (r ≤ pos) × (pos < w) × ((f (pos % N)).sequence ≡ pos) × (log pos ≡ x)

abbrev pub ProducerInv : (f : ℕ → Slot) (N r w : ℕ) (log : ℕ → ℕ) → Producer → Type 0
ProducerInv f N r w log resting = Unit {0}
ProducerInv f N r w log (starting x) = Unit {0}
ProducerInv f N r w log (loaded x pos) = pos ≤ w
ProducerInv f N r w log (seen x pos) = (pos ≤ w) × (pos ≡ w → w < r + N)
ProducerInv f N r w log (claimed x pos) = Owns f N r w log x pos
ProducerInv f N r w log (filled x pos) = Owns f N r w log x pos × ((f (pos % N)).message ≡ x)

abbrev pub ConsumerInv : (f : ℕ → Slot) (N r w : ℕ) (log : ℕ → ℕ) → Consumer → Type 0
ConsumerInv f N r w log idle = Unit {0}
ConsumerInv f N r w log (holding m) = (r < w) × ((f (r % N)).sequence ≡ suc r) × (m ≡ log r)

pub record Inv (s : State) : Type 0 where
  pub big : 2 ≤ s.q.size
  pub written : s.q.write_index ≡ s.claims
  pub behind : s.q.read_index ≤ s.claims
  pub room : s.claims ≤ s.q.read_index + s.q.size
  pub slot :
      (p : ℕ)
      → s.q.read_index ≤ p
      → p < s.q.read_index + s.q.size
      → SlotInv s.q.queue s.q.size s.claims s.accepted p
  pub producer :
      (i : ℕ) → ProducerInv s.q.queue s.q.size s.q.read_index s.claims s.accepted (s.producers i)
  pub apart :
      (i j pos : ℕ) → owned (s.producers i) ≡ some pos → owned (s.producers j) ≡ some pos → i ≡ j
  pub consumer : ConsumerInv s.q.queue s.q.size s.q.read_index s.claims s.accepted s.consumer
  pub history : s.received ≡ listing s.accepted s.q.read_index

-- Two positions of the ring have different slots.
pub slots_differ : (N r a b : ℕ) → r ≤ a → a < r + N → r ≤ b → b < r + N → a ≢ b → a % N ≢ b % N
slots_differ N r a b h k l m d = elim (dec_lt a b) [
  | yes below ↦ mod_ne N a b below (omega arith)
  | no above ↦ λ e. mod_ne N b a (omega (arith, d)) (omega arith) (sym e)
]

pub update-other : (f : ℕ → Slot) (k j : ℕ) (s : Slot) → k ≢ j → update f k s j ≡ f j
unfolding update
update-other f k j s d = ground (arith, d)

pub update-same : (f : ℕ → Slot) (k : ℕ) (s : Slot) → update f k s k ≡ s
unfolding update
update-same f k s = rw (==-refl k) refl

-- What a step of another thread leaves as it is, where it moves the indices forward.
module _ (f f' : ℕ → Slot) (N r r' w w' : ℕ) (log log' : ℕ → ℕ) (grows : w ≤ w') (moves : r ≤ r')
    (same : (pos : ℕ) → pos < w → log' pos ≡ log pos) where
  pub SlotInv-keep : (p : ℕ) → f' (p % N) ≡ f (p % N) → SlotInv f N w log p → SlotInv f' N w' log' p
  SlotInv-keep p e (inl v) = inl (rw e v)
  SlotInv-keep p e (inr v) = inr (omega (arith, v.0), rw e v.1, rw e (v.2 ∙ sym (same p v.0)))

  Owns-keep :
      (x pos : ℕ)
      → (r ≤ pos → pos < w → (f' (pos % N) ≡ f (pos % N)) × (r' ≤ pos))
      → Owns f N r w log x pos
      → Owns f' N r' w' log' x pos
  Owns-keep x pos k v =
      let (e, l) = k v.0 v.1 in (l, omega (arith, v.1), rw e v.2, same pos v.1 ∙ v.3)

  pub ProducerInv-keep :
      (P : Producer)
      → ((pos : ℕ)
          → owned P ≡ some pos
          → r ≤ pos
          → pos < w
          → (f' (pos % N) ≡ f (pos % N)) × (r' ≤ pos))
      → ProducerInv f N r w log P
      → ProducerInv f' N r' w' log' P
  ProducerInv-keep resting k v = tt
  ProducerInv-keep (starting x) k v = tt
  ProducerInv-keep (loaded x pos) k v = omega arith
  ProducerInv-keep (seen x pos) k v =
      (omega (arith, v.0), λ e. let l = v.1 (omega (arith, v.0)) in omega arith)
  ProducerInv-keep (claimed x pos) k v = Owns-keep x pos (k pos refl) v
  ProducerInv-keep (filled x pos) k v =
      (Owns-keep x pos (k pos refl) v.0, rw ((k pos refl v.0.0 v.0.1).0) v.1)

abbrev pub AreApart : (ℕ → Producer) → Type 0
AreApart F = (i j pos : ℕ) → owned (F i) ≡ some pos → owned (F j) ≡ some pos → i ≡ j

-- A producer moves to a place where it owns nothing that another one owns.
pub AreApart-update_at :
    (F : ℕ → Producer) (i : ℕ) (P : Producer)
    → ((j pos : ℕ) → owned P ≡ some pos → owned (F j) ≡ some pos → i ≡ j)
    → AreApart F
    → AreApart (update_at F i P)
AreApart-update_at F i P h v a b pos = elim (Bool-cases (i == a)) [
  | inl ia ↦ elim (Bool-cases (i == b)) [
    | inl ib ↦ λ k l. ground arith
    | inr ib ↦ rw (ia, ib) (λ k l. let q = h b pos k l in ground arith)
  ]
  | inr ia ↦ elim (Bool-cases (i == b)) [
    | inl ib ↦ rw (ia, ib) (λ k l. let q = h a pos l k in ground arith)
    | inr ib ↦ rw (ia, ib) (λ k l. v a b pos k l)
  ]
]

-- What holds of the position that a producer owns.
pub owned_lem :
    (f : ℕ → Slot) (N r w : ℕ) (log : ℕ → ℕ) (P : Producer) (pos : ℕ)
    → ProducerInv f N r w log P
    → owned P ≡ some pos
    → (r ≤ pos) × (pos < w) × ((f (pos % N)).sequence ≡ pos)
owned_lem f N r w log resting pos v e = absurd (cc)
owned_lem f N r w log (starting x) pos v e = absurd (cc)
owned_lem f N r w log (loaded x p) pos v e = absurd (cc)
owned_lem f N r w log (seen x p) pos v e = absurd (cc)
owned_lem f N r w log (claimed x p) pos v e =
    subst (λ k. (r ≤ k) × (k < w) × ((f (k % N)).sequence ≡ k)) (cc) (v.0, v.1, v.2)
owned_lem f N r w log (filled x p) pos v e =
    subst (λ k. (r ≤ k) × (k < w) × ((f (k % N)).sequence ≡ k)) (cc) (v.0.0, v.0.1, v.0.2)

pub ConsumerInv-keep :
    (f f' : ℕ → Slot) (N r w w' : ℕ) (log log' : ℕ → ℕ) (c : Consumer)
    → w ≤ w'
    → ((pos : ℕ) → pos < w → log' pos ≡ log pos)
    → (r < w → (f (r % N)).sequence ≡ suc r → f' (r % N) ≡ f (r % N))
    → ConsumerInv f N r w log c
    → ConsumerInv f' N r w' log' c
ConsumerInv-keep f f' N r w w' log log' idle g same k v = tt
ConsumerInv-keep f f' N r w w' log log' (holding m) g same k v =
    let e = k v.0 v.1 in (omega (arith, v.0), rw e v.1, v.2 ∙ sym (same r v.0))

pub listing-same : (f g : ℕ → ℕ) (k : ℕ) → ((p : ℕ) → p < k → g p ≡ f p) → listing g k ≡ listing f k
unfolding listing
listing-same f g zero h = refl
listing-same f g (suc k) h =
    ap₂ (λ x xs. x ∷ xs) (h k (omega arith)) (listing-same f g k (λ p l. h p (omega arith)))
