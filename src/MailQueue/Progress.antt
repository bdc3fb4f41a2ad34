-- ===== src/MailQueue/Progress.antt =====
-- A producer of `MailQueue` that is not disturbed comes to an end.
use native.Mathlib.Nat.{add-mod_right}
use native.Mathlib.Decide.{dec_lt}
use acnet.Prelude.{
  ℕ, suc, ◌+◌, ◌^◌, ◌%◌, ◌≤◌, ◌<◌, ◌≡◌, ◌≢◌, ◌==◌, refl, true, false, arith, update_at,
  update_at-other, update_at_self, Bool-cases, inl, inr, ◌⊎◌, ==-to_eq, subst, false≢true, ap, sym,
  ◌∙◌,
}
use acnet.MailQueue.{diff, is_negative}
use acnet.MailQueue.Threads.{
  resting, starting, loaded, seen, claimed, filled, State, Step, Reach, sequence_at, load, refuse,
  see, claim, fill, publish,
}
use acnet.MailQueue.Claims.{Inv}
use acnet.MailQueue.Interleaving.{IsSmall, producer_at}
use acnet.MailQueue.Order.{bounded-Inv}
use acnet.MailQueue.Delivery.{refuse-full}

-- Sequences of steps, with their number.
pub data Steps (s : State) : ℕ → State → Type 0 where
  none_taken : Steps s 0 s
  and_then : {k : ℕ} {t u : State} → Steps s k t → Step t u → Steps s (suc k) u

module _ {s : State} (v : Inv s) (b : IsSmall s) where
  -- The slot of the next position is free where there is room, and still occupied where there is none.
  next_free :
      s.claims < s.q.read_index + s.q.size
      → diff (sequence_at s.q s.q.write_index) s.q.write_index ≡ 0
  unfolding diff
  next_free l =
      elim (v.slot s.q.write_index (omega (arith, v.written, v.behind))
        (omega (arith, v.written, l))) [
          | inl unread ↦ rw unread (omega (arith, b, v.written))
          | inr done ↦ absurd (omega (arith, done.0, v.written))
        ]

  next_occupied :
      s.claims ≡ s.q.read_index + s.q.size
      → is_negative (diff (sequence_at s.q s.q.write_index) s.q.write_index) ≡ true
  unfolding diff is_negative
  next_occupied l =
      let k : s.q.write_index ≡ s.q.read_index + s.q.size = v.written ∙ l in
      let m : s.q.write_index % s.q.size ≡ s.q.read_index % s.q.size =
        ap (λ p. p % s.q.size) k ∙ add-mod_right s.q.read_index s.q.size in
      let c : sequence_at s.q s.q.write_index ≡ sequence_at s.q s.q.read_index =
        ap (λ j. (s.q.queue j).sequence) m in
      elim (v.slot s.q.read_index (omega arith) (omega (arith, v.big))) [
        | inl unread ↦ rw (c ∙ unread) (ground (arith, k, b, v.big, l))
        | inr done ↦ rw (c ∙ done.1) (ground (arith, k, b, v.big, l))
      ]

  -- A producer whose position is the next one does not go round the loop.
  ahead-moved :
      (pos : ℕ)
      → is_negative (diff (sequence_at s.q pos) pos) ≡ false
      → (diff (sequence_at s.q pos) pos == 0) ≡ false
      → pos ≢ s.q.write_index
  ahead-moved pos k e q = elim (dec_lt s.claims (s.q.read_index + s.q.size)) [
    | yes m ↦
        let z : diff (sequence_at s.q pos) pos ≡ 0 =
          subst (λ p. diff (sequence_at s.q p) p ≡ 0) (sym q) (next_free m) in
        absurd (ground (arith, z, e))
    | no m ↦ absurd (
        false≢true (
          sym k
          ∙ subst (λ p. is_negative (diff (sequence_at s.q p) p) ≡ true) (sym q)
              (next_occupied (omega (arith, v.room)))))
  ]

-- The producer `i` has gone from `s` to `t` and rests, and nobody else has moved.
abbrev pub HasFinished : ℕ → State → State → Type 0
HasFinished i s t =
    (t.producers i ≡ resting)
    × (t.consumer ≡ s.consumer)
    × ((j : ℕ) → i ≢ j → t.producers j ≡ s.producers j)

module _ {s : State} (v : Inv s) (b : IsSmall s) (i x : ℕ) (h : s.producers i ≡ starting x) where
  accepts :
      s.claims < s.q.read_index + s.q.size
      → (t : State) × Steps s 5 t
        × HasFinished i s t
        × (t.claims ≡ suc s.claims)
        × (t.accepted s.claims ≡ x)
  accepts l =
      let w = s.q.write_index in
      let F = s.producers in
      let F1 = update_at F i (loaded x w) in
      let F2 = update_at F1 i (seen x w) in
      let F3 = update_at F2 i (claimed x w) in
      let F4 = update_at F3 i (filled x w) in
      let s1 = and_then none_taken (load i h) in
      let s2 = and_then s1 (see i (update_at_self F i (loaded x w)) (next_free v b l)) in
      let s3 = and_then s2 (claim i (update_at_self F1 i (seen x w)) refl) in
      let s4 = and_then s3 (fill i (update_at_self F2 i (claimed x w))) in
      (
        _,
        and_then s4 (publish i (update_at_self F3 i (filled x w))),
        (
          update_at_self F4 i resting,
          refl,
          λ j d.
              update_at-other F4 i resting j d
              ∙ update_at-other F3 i (filled x w) j d
              ∙ update_at-other F2 i (claimed x w) j d
              ∙ update_at-other F1 i (seen x w) j d
              ∙ update_at-other F i (loaded x w) j d,
        ),
        refl,
        update_at_self s.accepted s.claims x,
      )

  refuses :
      s.claims ≡ s.q.read_index + s.q.size
      → (t : State) × Steps s 2 t × HasFinished i s t × (t.q ≡ s.q) × (t.claims ≡ s.claims)
  refuses l =
      let w = s.q.write_index in
      let F = s.producers in
      let F1 = update_at F i (loaded x w) in
      (
        _,
        and_then (and_then none_taken (load i h))
            (refuse i (update_at_self F i (loaded x w)) (next_occupied v b l)),
        (
          update_at_self F1 i resting,
          refl,
          λ j d. update_at-other F1 i resting j d ∙ update_at-other F i (loaded x w) j d,
        ),
        refl,
        refl,
      )

-- A producer can finish without the help of others, in every interleaving, for a queue of 2 to 2 ^ 61
-- messages and fewer than 2 ^ 62 accepted ones: from the load of the write index on, while nobody else
-- moves, there are five steps that accept its message, where fewer messages are under way than there
-- are slots, or every slot is taken, and there are two steps that refuse it and leave the queue as it
-- is.
pub try_enqueue-finishes :
    (n : ℕ) {s : State} (i x : ℕ)
    → 2 ≤ n
    → n ≤ 2 ^ 61
    → s.claims < 2 ^ 62
    → Reach n s
    → s.producers i ≡ starting x
    → ((s.claims < s.q.read_index + s.q.size)
        × ((t : State) × Steps s 5 t
            × HasFinished i s t
            × (t.claims ≡ suc s.claims)
            × (t.accepted s.claims ≡ x)))
      ⊎ ((s.claims ≡ s.q.read_index + s.q.size)
          × ((t : State) × Steps s 2 t × HasFinished i s t × (t.q ≡ s.q) × (t.claims ≡ s.claims)))
try_enqueue-finishes n {s} i x big small few r h =
    let (v, b) = bounded-Inv n big small few r in
    elim (dec_lt s.claims (s.q.read_index + s.q.size)) [
      | yes l ↦ inl (l, accepts v b i x h l)
      | no l ↦
          let e : s.claims ≡ s.q.read_index + s.q.size = omega (arith, v.room) in
          inr (e, refuses v b i x h e)
    ]

-- Under the same bounds, what a producer finds behind its load of the write index: its slot is still
-- occupied, then every slot is taken by a message that is under way, and nobody has got a position
-- since the load; or its slot is free; or it goes round the loop, then another producer has got a
-- position since the load.
pub try_enqueue-tests :
    (n : ℕ) {s : State} (i x pos : ℕ)
    → 2 ≤ n
    → n ≤ 2 ^ 61
    → s.claims < 2 ^ 62
    → Reach n s
    → s.producers i ≡ loaded x pos
    → let d = diff (sequence_at s.q pos) pos in
      ((is_negative d ≡ true) × (s.claims ≡ s.q.read_index + s.q.size) × (pos ≡ s.q.write_index))
      ⊎ ((is_negative d ≡ false) × (d ≡ 0))
      ⊎ ((is_negative d ≡ false) × ((d == 0) ≡ false) × (pos < s.q.write_index))
try_enqueue-tests n {s} i x pos big small few r h =
    let (v, b) = bounded-Inv n big small few r in
    let d = diff (sequence_at s.q pos) pos in
    let l = producer_at v i h in
    elim (Bool-cases (is_negative d)) [
      | inl k ↦ let (full, same) = refuse-full n i x pos big small few r h k in inl (k, full, same)
      | inr k ↦ elim (Bool-cases (d == 0)) [
        | inl e ↦ inr (inl (k, ==-to_eq d 0 e))
        | inr e ↦
            let m = ahead-moved v b pos k e in inr (inr (k, e, omega (arith, l, v.written, m)))
      ]
    ]
