-- ===== src/EventBus/Routing.antt =====
-- The table of subscriptions counts, for each event type, how often each mailbox subscribes.
use acnet.Prelude.{
  count, count-append, ℕ, ◌+◌, ◌-◌, ◌==◌, ◌≡◌, refl, sym, ap, ◌∙◌, if◌then◌else◌, true, false, ◌&&◌,
  none, some, List, [], ◌∷◌, ◌++◌, arith, ==-to_eq, subst, is_empty, Option-cases, Bool-cases, inl,
  inr,
}
use acnet.Message.{EventType, value}
use acnet.EventBus.{
  EventBus, Routes, same_type, subscribers, push_back, subscribe, fill_with_last, take_out,
  withdraw, unsubscribe,
}

-- How often the mailbox `b` subscribes to the type `t`.
abbrev pub number : EventType → ℕ → Routes → ℕ
number t b r = elim (subscribers t r) [ none ↦ 0 | some bs ↦ count b bs ]

-- Each type stands once, and no entry is empty.
pub data IsRouting : Routes → Type 0 where
  nil : IsRouting []
  cons :
      {t : EventType} {bs : List ℕ} {r : Routes}
      → is_empty bs ≡ false
      → subscribers t r ≡ none
      → IsRouting r
      → IsRouting ((t, bs) ∷ r)

abbrev pub hit : EventType → ℕ → EventType → ℕ → ℕ
hit s c t b = if same_type s t && c == b then 1 else 0

subscribers-same :
    (s t : EventType) (r : Routes) → same_type s t ≡ true → subscribers s r ≡ subscribers t r
unfolding subscribers value
subscribers-same s t [] h = refl
subscribers-same s t ((u, bs) ∷ r) h = ground (arith, subscribers-same s t r h)

number-push_back :
    (s t : EventType) (c b : ℕ) (r : Routes)
    → number t b (push_back s c r) ≡ number t b r + hit s c t b
unfolding push_back subscribers value
number-push_back s t c b [] = ground arith
number-push_back s t c b ((u, bs) ∷ r) = elim (Bool-cases (same_type u s)) [
  | inl e ↦ simp e (ground (arith, count-append b bs (c ∷ [])))
  | inr e ↦ simp e (ground (arith, number-push_back s t c b r))
]

-- Such a list is not empty.
fill_cases : (y : ℕ) (ys : List ℕ) → (l : ℕ) × (ls : List ℕ) × (fill_with_last (y ∷ ys) ≡ l ∷ ls)
unfolding fill_with_last
fill_cases y [] = (y, [], refl)
fill_cases y (z ∷ zs) = let (l, ls, e) = fill_cases z zs in (l, y ∷ ls, rw (e, fill_with_last) refl)

count-fill_with_last : (b : ℕ) (xs : List ℕ) → count b (fill_with_last xs) ≡ count b xs
unfolding fill_with_last
count-fill_with_last b [] = refl
count-fill_with_last b (y ∷ []) = refl
count-fill_with_last b (y ∷ z ∷ zs) =
    let (l, ls, e) = fill_cases z zs in
    let k = ap (count b) (sym e) ∙ count-fill_with_last b (z ∷ zs) in
    rw (e, fill_with_last) (ground (arith, k))

take_out-count :
    (b : ℕ) (xs ys : List ℕ) (c : ℕ)
    → take_out b xs ≡ some ys
    → count c xs ≡ count c ys + (if b == c then 1 else 0)
unfolding take_out
take_out-count b [] ys c h = ground arith
take_out-count b (x ∷ xs) ys c h = elim (Option-cases (take_out b xs)) [
  | inl n ↦ ground (arith, count-fill_with_last c xs)
  | inr (zs, e) ↦ ground (arith, count-fill_with_last c xs, take_out-count b xs zs c e)
]

take_out-none : (b : ℕ) (xs : List ℕ) → take_out b xs ≡ none → count b xs ≡ 0
unfolding take_out
take_out-none b [] h = refl
take_out-none b (x ∷ xs) h = ground (arith, take_out-none b xs)

withdraw-number :
    (s t : EventType) (c b : ℕ) (r r' : Routes)
    → IsRouting r
    → withdraw s c r ≡ some r'
    → number t b r ≡ number t b r' + hit s c t b
unfolding withdraw subscribers value
withdraw-number s t c b [] r' v h = ground arith
withdraw-number s t c b ((u, bs) ∷ r) r' (cons e n v) h = elim (Bool-cases (same_type u s)) [
  | inl k ↦ elim (Option-cases (take_out c bs)) [
    | inl o ↦ ground arith
    | inr (cs, o) ↦ ground (arith, take_out-count c bs cs b o, subscribers-same u t r)
  ]
  | inr k ↦ elim (Option-cases (withdraw s c r)) [
    | inl o ↦ ground arith
    | inr (q, o) ↦ ground (arith, withdraw-number s t c b r q v o)
  ]
]

withdraw-none : (s : EventType) (c : ℕ) (r : Routes) → withdraw s c r ≡ none → number s c r ≡ 0
unfolding withdraw subscribers value
withdraw-none s c [] h = refl
withdraw-none s c ((u, bs) ∷ r) h = elim (Bool-cases (same_type u s)) [
  | inl k ↦ elim (Option-cases (take_out c bs)) [
    | inl o ↦ ground (arith, take_out-none c bs o)
    | inr (cs, o) ↦ ground arith
  ]
  | inr k ↦ elim (Option-cases (withdraw s c r)) [
    | inl o ↦ ground (arith, withdraw-none s c r o)
    | inr (q, o) ↦ ground arith
  ]
]

push_back-absent :
    (s t : EventType) (c : ℕ) (r : Routes)
    → same_type s t ≡ false
    → subscribers t r ≡ none
    → subscribers t (push_back s c r) ≡ none
unfolding push_back subscribers value
push_back-absent s t c [] k n = ground arith
push_back-absent s t c ((u, bs) ∷ r) k n = elim (Bool-cases (same_type u s)) [
  | inl e ↦ simp e (ground arith)
  | inr e ↦ simp e (ground (arith, push_back-absent s t c r k))
]

is_empty_last : (c : ℕ) (bs : List ℕ) → is_empty (bs ++ c ∷ []) ≡ false
is_empty_last c [] = refl
is_empty_last c (b ∷ bs) = refl

same_type_comm : (s t : EventType) → same_type s t ≡ same_type t s
unfolding value
same_type_comm s t = ground arith

pub push_back-IsRouting :
    (s : EventType) (c : ℕ) (r : Routes) → IsRouting r → IsRouting (push_back s c r)
unfolding push_back subscribers
push_back-IsRouting s c [] v = cons refl refl nil
push_back-IsRouting s c ((u, bs) ∷ r) (cons e n v) = elim (Bool-cases (same_type u s)) [
  | inl k ↦ simp k (cons (is_empty_last c bs) n v)
  | inr k ↦
      simp k
        (cons e (push_back-absent s u c r (same_type_comm s u ∙ k) n) (push_back-IsRouting s c r v))
]

withdraw-absent :
    (s t : EventType) (c : ℕ) (r r' : Routes)
    → withdraw s c r ≡ some r'
    → subscribers t r ≡ none
    → subscribers t r' ≡ none
unfolding withdraw subscribers value
withdraw-absent s t c [] r' h n = ground arith
withdraw-absent s t c ((u, bs) ∷ r) r' h n = elim (Bool-cases (same_type u s)) [
  | inl k ↦ elim (Option-cases (take_out c bs)) [
    | inl o ↦ ground arith
    | inr (cs, o) ↦ ground arith
  ]
  | inr k ↦ elim (Option-cases (withdraw s c r)) [
    | inl o ↦ ground arith
    | inr (q, o) ↦ ground (arith, withdraw-absent s t c r q o)
  ]
]

pub withdraw-IsRouting :
    (s : EventType) (c : ℕ) (r r' : Routes) → IsRouting r → withdraw s c r ≡ some r' → IsRouting r'
unfolding withdraw
withdraw-IsRouting s c [] r' v h = ground arith
withdraw-IsRouting s c ((u, bs) ∷ r) r' (cons e n v) h = elim (Bool-cases (same_type u s)) [
  | inl k ↦ elim (Option-cases (take_out c bs)) [
    | inl o ↦ absurd (ground arith)
    | inr (cs, o) ↦ elim (Bool-cases (is_empty cs)) [
      | inl z ↦ let q : r ≡ r' = ground arith in subst IsRouting q v
      | inr z ↦ let q : (u, cs) ∷ r ≡ r' = ground arith in subst IsRouting q (cons z n v)
    ]
  ]
  | inr k ↦ elim (Option-cases (withdraw s c r)) [
    | inl o ↦ absurd (ground arith)
    | inr (w, o) ↦
        let q : (u, bs) ∷ w ≡ r' = ground arith in
        subst IsRouting q (cons e (withdraw-absent s u c r w o n) (withdraw-IsRouting s c r w v o))
  ]
]

number-missing :
    (s t : EventType) (c b : ℕ) (r : Routes)
    → number s c r ≡ 0
    → number t b r ≡ number t b r - hit s c t b
number-missing s t c b r h = elim (Bool-cases (same_type s t)) [
  | inl e ↦ elim (Bool-cases (c == b)) [
    | inl k ↦
        let zero_there : number t b r ≡ 0 =
          ap (λ o. elim o [ none ↦ 0 | some bs ↦ count b bs ]) (sym (subscribers-same s t r e))
          ∙ (ap (λ a. number s a r) (sym (==-to_eq c b k)) ∙ h) in
        omega (arith, zero_there)
    | inr k ↦ simp (e, k) (omega arith)
  ]
  | inr e ↦ simp e (omega arith)
]

-- Subscribing adds one subscription of the mailbox to the type and changes no other.
pub subscribe-number :
    (s t : EventType) (c b : ℕ) (bus : EventBus)
    → number t b (subscribe s c bus).event_bus ≡ number t b bus.event_bus + hit s c t b
unfolding subscribe
subscribe-number s t c b bus = number-push_back s t c b bus.event_bus

-- Where each type stands once in the table and no entry is empty, unsubscribing takes away one subscription of the mailbox
-- to the type, if there is one, and changes no other.
pub unsubscribe-number :
    (s t : EventType) (c b : ℕ) (bus : EventBus)
    → IsRouting bus.event_bus
    → number t b (unsubscribe s c bus).event_bus ≡ number t b bus.event_bus - hit s c t b
unfolding unsubscribe value
unsubscribe-number s t c b bus v = elim (Option-cases (withdraw s c bus.event_bus)) [
  | inl e ↦
      rw (e, unsubscribe) (number-missing s t c b bus.event_bus (withdraw-none s c bus.event_bus e))
  | inr (r, e) ↦ rw (e, unsubscribe) (omega (arith, withdraw-number s t c b bus.event_bus r v e))
]
