-- ===== src/WorkStealing/Keeping.antt =====
-- The parts of the proof that every access keeps the invariant.
use acnet.Prelude.{
  ℕ, zero, suc, ◌+◌, ◌^◌, ◌%◌, ◌≤◌, ◌<◌, ◌≡◌, ◌==◌, refl, true, false, ◌∷◌, arith, word, increment,
  decrement, signed_ltb, signed_leb, length, Bool-cases, inl, inr, ap, subst, sym, ◌∙◌, update_at,
  ◌⊎◌, signed_ltb_small, signed_leb_small, signed_ltb_under, signed_leb_under, false≢true,
  decrement-suc, mod_ne, update_at_self, ==-to_eq,
}
use acnet.WorkStealing.{WorkStealingQueue}
use acnet.WorkStealing.Threads.{
  State, Owner, idle, pushing, stored, popping, racing, restoring, Thief, resting, read_top, seen,
  ready,
}
use acnet.WorkStealing.Invariant.{limit, end, OwnerInv, ThiefInv, Inv}

seen_lt :
    (N : ℕ) (p q : WorkStealingQueue) (e f tp : ℕ)
    → p.top ≤ q.top
    → (q.top ≡ p.top → p.top < e → p.top < f)
    → (tp ≤ p.top) × (tp ≡ p.top → tp < e)
    → tp ≡ q.top
    → tp < f
seen_lt N p q e f tp h k v o =
    let t : tp ≡ p.top = omega (arith, v.0) in
    let here : p.top < e = omega (arith, v.1 t) in omega (arith, k (omega arith) here)

-- A thief is not disturbed where `top_` grows, or stays with its slot still in the queue.
ThiefInv-move :
    (N : ℕ) (p q : WorkStealingQueue) (e f : ℕ) (a : Thief)
    → p.top ≤ q.top
    → (q.top ≡ p.top → p.top < e → p.top < f)
    → (q.top ≡ p.top → p.top < e → q.queue (p.top % N) ≡ p.queue (p.top % N))
    → ThiefInv N p e a
    → ThiefInv N q f a
ThiefInv-move N p q e f resting h k l v = tt
ThiefInv-move N p q e f (read_top tp) h k l v = omega arith
ThiefInv-move N p q e f (seen tp) h k l v = (omega (arith, v.0), λ o. seen_lt N p q e f tp h k v o)
ThiefInv-move N p q e f (ready tp ptr) h k l v = (
  omega (arith, v.0),
  λ o. seen_lt N p q e f tp h k (v.0, v.1) o,
  λ o.
      let t : tp ≡ p.top = omega (arith, v.0) in
      let here : p.top < e = omega (arith, v.1 t) in
      ap (λ n. q.queue (n % N)) t
      ∙ (l (omega arith) here ∙ (ap (λ n. p.queue (n % N)) (sym t) ∙ v.2 t)),
)

ThiefInv-update :
    (N : ℕ) (q : WorkStealingQueue) (e : ℕ) (f : ℕ → Thief) (i : ℕ) (a : Thief)
    → ((j : ℕ) → ThiefInv N q e (f j))
    → ThiefInv N q e a
    → (j : ℕ) → ThiefInv N q e (update_at f i a j)
ThiefInv-update N q e f i a h k j = elim (Bool-cases (i == j)) [
  | inl c ↦ simp c k
  | inr c ↦ simp c (h j)
]

-- A lowered `bottom_` never shows a thief more than there is.
pub see_lt :
    (tp b e : ℕ)
    → tp < 2 ^ 63
    → e < 2 ^ 63
    → (b ≡ e) ⊎ (b ≡ decrement e)
    → signed_ltb tp b ≡ true
    → tp < e
see_lt tp b e h k (inl c) r = ground (arith, signed_ltb_small tp b h (omega arith))
see_lt tp b zero h k (inr c) r = ground (arith, signed_ltb_under tp h)
see_lt tp b (suc e) h k (inr c) r =
    let d : b ≡ e = c ∙ decrement-suc e (omega arith) in
    ground (arith, signed_ltb_small tp b h (omega arith))

bottom_of :
    (N : ℕ) (q : WorkStealingQueue) (o : Owner)
    → OwnerInv N q o
    → (q.bottom ≡ limit o q.bottom) ⊎ (q.bottom ≡ decrement (limit o q.bottom))
bottom_of N q idle v = inl refl
bottom_of N q (pushing x) v = inl refl
bottom_of N q (stored x) v = inl refl
bottom_of N q popping v = inr (omega arith)
bottom_of N q racing v = inr (omega (arith, v.0))
bottom_of N q restoring v = inr (omega (arith, v.0))

-- A lowered `bottom_` that is not below `top_` is a position.
pub popped :
    (t b e : ℕ)
    → t < 2 ^ 63
    → e < 2 ^ 63
    → b < word
    → increment b ≡ e
    → signed_leb t b ≡ true
    → (b < 2 ^ 63) × (t ≤ b) × (e ≡ suc b)
popped t b zero h k w i l =
    let d : b ≡ decrement 0 = omega arith in
    absurd (false≢true (sym (ap (signed_leb t) d ∙ signed_leb_under t h) ∙ l))
popped t b (suc e) h k w i l =
    let d : b ≡ e = omega arith in
    (omega arith, ground (arith, signed_leb_small t b h (omega arith)), ap suc (sym d))

-- A thief that wins leaves the owner where it is, and the owner was not restoring `bottom_`.
OwnerInv-raise :
    (N : ℕ) (q : WorkStealingQueue) (o : Owner) (t : ℕ)
    → OwnerInv N q o
    → q.top < limit o q.bottom
    → t ≡ suc q.top
    → OwnerInv N (record q { top = t }) o
OwnerInv-raise N q idle t v h e = tt
OwnerInv-raise N q (pushing x) t v h e = omega arith
OwnerInv-raise N q (stored x) t v h e = (omega (arith, v.0), v.1)
OwnerInv-raise N q popping t v h e = v
OwnerInv-raise N q racing t v h e = (v.0, omega (arith, v.1))
OwnerInv-raise N q restoring t v h e = absurd (omega (arith, v.1))

module _ {N : ℕ} {s : State} (v : Inv N s) where
  pub own_at : {o : Owner} → s.owner ≡ o → OwnerInv N s.q o
  own_at h = subst (λ o. OwnerInv N s.q o) h v.own

  pub end_at : {o : Owner} → s.owner ≡ o → end s ≡ limit o s.q.bottom
  end_at h = ap (λ o. limit o s.q.bottom) h

  pub bottom_at : (s.q.bottom ≡ end s) ⊎ (s.q.bottom ≡ decrement (end s))
  bottom_at = bottom_of N s.q s.owner v.own

  -- The thieves, where an access of the owner leaves `top_` and the ring as they are.
  keep :
      (e : ℕ)
      → (s.q.top < end s → s.q.top < e)
      → (b i : ℕ) → ThiefInv N (record s.q { bottom = b }) e (s.thieves i)
  keep e h b i =
      ThiefInv-move N s.q (record s.q { bottom = b }) (end s) e (s.thieves i) (omega arith)
        (λ same below. h below) (λ same below. refl) (v.thief i)

  pub end_bound : end s < 2 ^ 63
  end_bound = omega (arith, v.few, v.bound)

  -- An access of the owner that moves it from `o` to `o'`, keeps the limit, and keeps the ring.
  pub turn :
      {o : Owner} (o' : Owner) (b : ℕ)
      → s.owner ≡ o
      → limit o' b ≡ limit o s.q.bottom
      → OwnerInv N (record s.q { bottom = b }) o'
      → Inv N (record s { q = record s.q { bottom = b }; owner = o' })
  turn {o} o' b h same w =
      let e : limit o' b ≡ end s = same ∙ sym (end_at h) in
      record {
        bound = v.bound;
        ordered = omega (arith, e, v.ordered);
        fits = omega (arith, e, v.fits);
        few = omega (arith, e, v.few);
        own = w;
        thief = λ i. keep (limit o' b) (λ below. omega (arith, e)) b i;
      }

-- An access of a thief that leaves the queue as it is.
pub step_thief :
    {N : ℕ} {s : State} (i : ℕ) (a : Thief)
    → Inv N s
    → ThiefInv N s.q (end s) a
    → Inv N (record s { thieves = update_at s.thieves i a })
step_thief {N} {s} i a v w = record {
  bound = v.bound;
  ordered = v.ordered;
  fits = v.fits;
  few = v.few;
  own = v.own;
  thief = ThiefInv-update N s.q (end s) s.thieves i a v.thief w;
}

pub thief_at :
    {N : ℕ} {s : State} (i : ℕ) {a : Thief} → Inv N s → s.thieves i ≡ a → ThiefInv N s.q (end s) a
thief_at {N} {s} i v h = subst (ThiefInv N s.q (end s)) h (v.thief i)

pub store_slot-Inv :
    {N : ℕ} {s : State} {x : ℕ}
    → Inv N s
    → s.owner ≡ pushing x
    → Inv N (record s {
      q = record s.q { queue = update_at s.q.queue (s.q.bottom % N) x };
      owner = stored x;
    })
store_slot-Inv {N} {s} {x} v o =
    let e = end_at v o in
    let room = own_at v o in
    record {
      bound = v.bound;
      ordered = omega (arith, e, v.ordered);
      fits = omega (arith, e, v.fits);
      few = omega (arith, e, v.few);
      own = (room, update_at_self s.q.queue (s.q.bottom % N) x);
      thief = λ i.
          ThiefInv-move N s.q (record s.q { queue = update_at s.q.queue (s.q.bottom % N) x })
            (end s) s.q.bottom (s.thieves i) (omega arith) (λ same below. omega (arith, e))
            (λ same below. ground (arith, mod_ne N s.q.top s.q.bottom (omega (arith, e)) room))
            (v.thief i);
    }

pub publish-Inv :
    {N : ℕ} {s : State} {x : ℕ}
    → Inv N s
    → s.owner ≡ stored x
    → length s.pushed + 1 < 2 ^ 63
    → Inv N (record s {
      q = record s.q { bottom = increment s.q.bottom };
      owner = idle;
      pushed = x ∷ s.pushed;
    })
publish-Inv {N} {s} {x} v o b =
    let e = end_at v o in
    let (room, slot) = own_at v o in
    let i : increment s.q.bottom ≡ s.q.bottom + 1 = omega (arith, e, v.few) in
    record {
      bound = omega arith;
      ordered = omega (arith, e, i, v.ordered);
      fits = omega (arith, e, i);
      few = omega (arith, e, i, v.few);
      own = tt;
      thief = keep v (increment s.q.bottom) (λ below. omega (arith, e, i)) (increment s.q.bottom);
    }

pub pop_inner-Inv :
    {N : ℕ} {s : State} (x : ℕ)
    → Inv N s
    → s.owner ≡ popping
    → signed_leb s.q.top s.q.bottom ≡ true
    → (s.q.top == s.q.bottom) ≡ false
    → Inv N (record s { owner = idle; taken = x ∷ s.taken })
pop_inner-Inv {N} {s} x v o le ne =
    let e = end_at v o in
    let (small, above, next_up) =
      popped s.q.top s.q.bottom (end s) (omega (arith, v.ordered, end_bound v)) (end_bound v)
        (own_at v o) (sym e) le in
    let below : s.q.top < s.q.bottom = ground (arith, above, ne) in
    record {
      bound = v.bound;
      ordered = above;
      fits = omega (arith, v.fits, next_up);
      few = omega (arith, v.few, next_up);
      own = tt;
      thief = keep v s.q.bottom (λ h. below) s.q.bottom;
    }

pub win-Inv :
    {N : ℕ} {s : State} (x : ℕ)
    → Inv N s
    → s.owner ≡ racing
    → (s.q.top == s.q.bottom) ≡ true
    → Inv N (record s {
      q = record s.q { top = increment s.q.top };
      owner = restoring;
      taken = x ∷ s.taken;
    })
win-Inv {N} {s} x v o eq =
    let e = end_at v o in
    let (small, near) = own_at v o in
    let t : s.q.top ≡ s.q.bottom = ==-to_eq s.q.top s.q.bottom eq in
    let i : increment s.q.top ≡ s.q.top + 1 = omega arith in
    let j : increment s.q.bottom ≡ increment s.q.top = ap increment (sym t) in
    record {
      bound = v.bound;
      ordered = omega (arith, j);
      fits = omega (arith, j);
      few = omega (arith, e, v.few);
      own = (omega arith, j);
      thief = λ k.
          ThiefInv-move N s.q (record s.q { top = increment s.q.top }) (end s)
            (increment s.q.bottom) (s.thieves k) (omega (arith, i))
            (λ same below. absurd (omega (arith, i))) (λ same below. refl) (v.thief k);
    }

pub win_steal-Inv :
    {N : ℕ} {s : State} (i : ℕ) {tp ptr : ℕ}
    → Inv N s
    → s.thieves i ≡ ready tp ptr
    → (s.q.top == tp) ≡ true
    → Inv N (record s {
      q = record s.q { top = increment tp };
      thieves = update_at s.thieves i resting;
      taken = ptr ∷ s.taken;
    })
win_steal-Inv {N} {s} i {tp} {ptr} v h eq =
    let (old, here, slot) = thief_at i v h in
    let t : s.q.top ≡ tp = ==-to_eq s.q.top tp eq in
    let below : tp < end s = here (sym t) in
    let n : increment tp ≡ suc tp = omega (arith, below, end_bound v) in
    record {
      bound = v.bound;
      ordered = omega (arith, below, n);
      fits = omega (arith, v.fits, n, t);
      few = v.few;
      own =
          OwnerInv-raise N s.q s.owner (increment tp) v.own (omega (arith, below))
            (omega (arith, n));
      thief =
          ThiefInv-update N (record s.q { top = increment tp }) (end s) s.thieves i resting
            (λ k.
              ThiefInv-move N s.q (record s.q { top = increment tp }) (end s) (end s) (s.thieves k)
                (omega (arith, n)) (λ same h. h) (λ same h. refl) (v.thief k))
            tt;
    }
