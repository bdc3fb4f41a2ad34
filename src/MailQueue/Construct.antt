-- ===== src/MailQueue/Construct.antt =====
-- The constructor of `MailQueue`: the size is the next power of two, and the ring starts empty.
use native.Mathlib.Nat.{mod-eq_of_lt, dvd_trans, dvd-mul_right, pow-suc, sub-zero}
use Prim.Native.Nat.{◌∣◌}
use acnet.Prelude.{
  word, ℕ, zero, suc, ◌+◌, ◌*◌, ◌^◌, ◌≤◌, ◌<◌, ◌≡◌, leb, some, List, [], arith, refl, Bool-cases,
  inl, inr, ◌⊎◌,
}
use acnet.MailQueue.{Slot, mail_queue, bit_ceil, bit_ceil_from}
use acnet.MailQueue.Ring.{Free}
use acnet.MailQueue.Fifo
use acnet.MailQueue.Fifo.{Op}
use acnet.MailQueue.Slots.{IsRing}
use acnet.MailQueue.Refine.{run, run_refines}

-- What `bit_ceil_from` finds between `p` and `p * 2 ^ fuel`.
record Ceil (fuel p n r : ℕ) : Type 0 where
  above : n ≤ r
  from : p ≤ r
  upto : r ≤ p * 2 ^ fuel
  power : r ∣ p * 2 ^ fuel
  least : (r ≡ p) ⊎ (r < 2 * n)

double : (p k : ℕ) → 2 * p * 2 ^ k ≡ p * 2 ^ suc k
double p k = rw (pow-suc 2 k) (omega arith)

pow_pos : (p k : ℕ) → p ≤ p * 2 ^ k
pow_pos p zero = omega arith
pow_pos p (suc k) = omega (arith, double p k, pow_pos p k)

bit_ceil_from_lem :
    (fuel p n : ℕ) → 0 < p → n ≤ p * 2 ^ fuel → Ceil fuel p n (bit_ceil_from fuel p n)
unfolding bit_ceil_from
bit_ceil_from_lem zero p n h k = record {
  above = omega arith;
  from = omega arith;
  upto = omega arith;
  power = dvd-mul_right p (2 ^ 0);
  least = inl refl;
}
bit_ceil_from_lem (suc fuel) p n h k = elim (Bool-cases (leb n p)) [
  | inl e ↦ rw e (record {
    above = ground arith;
    from = omega arith;
    upto = pow_pos p (suc fuel);
    power = dvd-mul_right p (2 ^ suc fuel);
    least = inl refl;
  })
  | inr e ↦
      let c = bit_ceil_from_lem fuel (2 * p) n (omega arith) (omega (arith, double p fuel)) in
      let big : p < n = ground arith in
      rw e (record {
        above = c.above;
        from = omega (arith, c.from);
        upto = omega (arith, c.upto, double p fuel);
        power = rw (double p fuel) at c.power;
        least = inr (omega (arith, c.least));
      })
]

initial-Free :
    (f : ℕ → Slot) (size w n : ℕ)
    → ((i : ℕ) → (f i).sequence ≡ i)
    → w + n ≤ size
    → size < word
    → Free f size w n
initial-Free f size w zero e h k = tt
initial-Free f size w (suc n) e h k = (
  rw
      (
        e,
        mod-eq_of_lt {n = w} {m = size} (omega arith),
        mod-eq_of_lt {n = w} {m = word} (omega arith),
      )
      refl,
  initial-Free f size (suc w) n e (omega arith) k,
)

-- The size of a queue for `n` messages.
pub size_lem :
    (n : ℕ)
    → 2 ≤ n
    → n ≤ 2 ^ 63
    → (n ≤ bit_ceil n) × (bit_ceil n < 2 * n) × (bit_ceil n ≤ 2 ^ 63) × (bit_ceil n ∣ 2 ^ 63)
unfolding bit_ceil
size_lem n h k =
    let c = bit_ceil_from_lem 63 1 n (omega arith) (omega arith) in
    (c.above, omega (arith, c.least, c.above), omega (arith, c.upto), c.power)

pub mail_queue-IsRing : (n : ℕ) → 2 ≤ n → n ≤ 2 ^ 63 → IsRing 0 [] (mail_queue n)
unfolding mail_queue
mail_queue-IsRing n h k =
    let s = size_lem n h k in
    record {
      big = omega arith;
      small = s.2;
      divides = dvd_trans (bit_ceil n) s.3 (dvd-mul_right (2 ^ 63) 2);
      fits = omega arith;
      written = refl;
      taken = refl;
      filled = tt;
      free = rw (sub-zero (bit_ceil n)) (
          initial-Free (mail_queue n).queue (bit_ceil n) 0 (bit_ceil n) (λ i. refl) (omega arith)
            (omega arith));
    }

-- A `MailQueue` constructed for `n` messages, 2 ≤ n ≤ 2 ^ 63, answers every sequence of calls as
-- the bounded first-in first-out queue of its size, and every call returns. The size is at least `n`
-- and less than twice `n`.
pub mail_queue_refines :
    (n : ℕ) (ops : List Op)
    → 2 ≤ n
    → n ≤ 2 ^ 63
    → (run (mail_queue n) ops ≡ some (Fifo.run (bit_ceil n) [] ops))
      × (n ≤ bit_ceil n)
      × (bit_ceil n < 2 * n)
unfolding mail_queue
mail_queue_refines n ops h k =
    let s = size_lem n h k in
    (run_refines ops 0 [] (mail_queue n) (mail_queue-IsRing n h k), s.0, s.1)
