-- ===== src/MailQueue/Order.antt =====
-- Messages come out of `MailQueue` in the order in which their producers have got the positions.
use native.Mathlib.Nat.{mod-eq_of_lt}
use acnet.Prelude.{
  ℕ, suc, ◌+◌, ◌-◌, ◌^◌, ◌%◌, ◌≤◌, ◌<◌, ◌≡◌, refl, false, arith, inl, inr, ap, sym, ◌∙◌, word,
}
use acnet.MailQueue.{Slot, mail_queue, bit_ceil, diff, is_negative, add}
use acnet.MailQueue.Construct.{size_lem}
use acnet.MailQueue.Threads.{
  resting, starting, loaded, seen, filled, holding, State, initial, sequence_at, message_at, Step,
  begin, load, refuse, see, ahead, claim, fail, fill, publish, fetch, free, Reach, start, next,
}
use acnet.MailQueue.Claims.{owned, listing, ConsumerInv, Inv, update-same}
use acnet.MailQueue.Interleaving.{
  IsSmall, producer_at, at-Inv, seen-room, store-Inv, claim-Inv, free-Inv,
}

fetch-ConsumerInv :
    {s : State} (v : Inv s)
    → IsSmall s
    → is_negative (diff (sequence_at s.q s.q.read_index) (add s.q.read_index 1)) ≡ false
    → ConsumerInv s.q.queue s.q.size s.q.read_index s.claims s.accepted
        (holding (message_at s.q s.q.read_index))
unfolding diff is_negative add
fetch-ConsumerInv {s} v b h = elim (v.slot s.q.read_index (omega arith) (omega (arith, v.big))) [
  | inl unread ↦
      let k : ((s.q.read_index + word - (s.q.read_index + 1) % word) % word) ≡ word - 1 =
        omega (arith, b, v.behind) in
      absurd (ground (arith, unread, k, h))
  | inr done ↦ done
]

Step-Inv : {s t : State} → Step s t → IsSmall t → Inv s → Inv t
unfolding add
Step-Inv {s} (begin i x h) b v = at-Inv v i (starting x) refl tt
Step-Inv {s} (load i {x} h) b v =
    at-Inv v i (loaded x s.q.write_index) refl (omega (arith, v.written))
Step-Inv {s} (refuse i h n) b v = at-Inv v i resting refl tt
Step-Inv {s} (see i {x} {pos} h d) b v =
    let l = producer_at v i h in at-Inv v i (seen x pos) refl (l, λ e. seen-room v pos b l d e)
Step-Inv {s} (ahead i {x} h n d) b v = at-Inv v i (starting x) refl tt
Step-Inv {s} (claim i {x} {pos} h e) b v = claim-Inv v i x pos (omega arith) h e
Step-Inv {s} (fail i {x} h) b v = at-Inv v i (starting x) refl tt
Step-Inv {s} (fill i {x} {pos} h) b v =
    let k = producer_at v i h in
    let slot : Slot = record { sequence = sequence_at s.q pos; message = x } in
    let w = update-same s.q.queue (pos % s.q.size) slot in
    let e = ap (λ (u : Slot). u.sequence) w ∙ k.2 in
    store-Inv v i pos (filled x pos) slot (ap owned h) (λ p q. cc) (inl e)
      ((k.0, k.1, e, k.3), ap (λ (u : Slot). u.message) w)
Step-Inv {s} (publish i {x} {pos} h) b v =
    let k = producer_at v i h in
    let slot : Slot = record { sequence = (pos + 1) % word; message = message_at s.q pos } in
    let w = update-same s.q.queue (pos % s.q.size) slot in
    let e : (pos + 1) % word ≡ suc pos = omega (arith, k.0.1, b) in
    store-Inv v i pos resting slot (ap owned h) (λ p q. absurd (cc))
      (inr (
        k.0.1,
        ap (λ (u : Slot). u.sequence) w ∙ e,
        ap (λ (u : Slot). u.message) w ∙ k.1 ∙ sym k.0.3,
      ))
      tt
Step-Inv {s} (fetch h n) b v = record {
  big = v.big;
  written = v.written;
  behind = v.behind;
  room = v.room;
  slot = v.slot;
  producer = v.producer;
  apart = v.apart;
  consumer = fetch-ConsumerInv v b n;
  history = v.history;
}
Step-Inv {s} (free {m} h) b v =
    let r = s.q.read_index in
    let e : (r + s.q.size) % word ≡ r + s.q.size = omega (arith, v.behind, b) in
    let f : (r + 1) % word ≡ suc r = omega (arith, v.behind, b) in rw (e, f) (free-Inv v m b h)

Step-size : {s t : State} → Step s t → s.q.size ≡ t.q.size
Step-size (begin i x h) = refl
Step-size (load i h) = refl
Step-size (refuse i h n) = refl
Step-size (see i h d) = refl
Step-size (ahead i h n d) = refl
Step-size (claim i h e) = refl
Step-size (fail i h) = refl
Step-size (fill i h) = refl
Step-size (publish i h) = refl
Step-size (fetch h n) = refl
Step-size (free h) = refl

Step-claims : {s t : State} → Step s t → s.claims ≤ t.claims
Step-claims (begin i x h) = omega arith
Step-claims (load i h) = omega arith
Step-claims (refuse i h n) = omega arith
Step-claims (see i h d) = omega arith
Step-claims (ahead i h n d) = omega arith
Step-claims (claim i h e) = omega arith
Step-claims (fail i h) = omega arith
Step-claims (fill i h) = omega arith
Step-claims (publish i h) = omega arith
Step-claims (fetch h n) = omega arith
Step-claims (free h) = omega arith

initial-Inv : (n : ℕ) → 2 ≤ bit_ceil n → Inv (initial n)
unfolding mail_queue listing
initial-Inv n h = record {
  big = h;
  written = refl;
  behind = omega arith;
  room = omega arith;
  slot = λ p l m. inl (mod-eq_of_lt (omega arith));
  producer = λ i. tt;
  apart = λ i j pos e l. absurd (cc);
  consumer = tt;
  history = refl;
}

Reach-size : {n : ℕ} {s : State} → Reach n s → s.q.size ≡ bit_ceil n
unfolding mail_queue
Reach-size start = refl
Reach-size (next r st) = sym (Step-size st) ∙ Reach-size r

Reach-Inv : {n : ℕ} {s : State} → 2 ≤ bit_ceil n → Reach n s → IsSmall s → Inv s
Reach-Inv {n} h start b = initial-Inv n h
Reach-Inv h (next r st) b =
    Step-Inv st b (Reach-Inv h r (omega (arith, Step-size st, Step-claims st)))

module _ (n : ℕ) {s : State} (big : 2 ≤ n) (small : n ≤ 2 ^ 61) (few : s.claims < 2 ^ 62) where
  pub bounded-Inv : Reach n s → Inv s × IsSmall s
  bounded-Inv r =
      let (a, c, d, e) = size_lem n big (omega arith) in
      let b : IsSmall s = omega (arith, Reach-size r) in (Reach-Inv (omega arith) r b, b)
