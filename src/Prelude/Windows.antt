-- ===== src/Prelude/Windows.antt =====
-- The contents of a ring: the slots of consecutive positions, taken modulo the size.
use native.Mathlib.Nat.{div-add-mod, add-zero, mod-mod_of_dvd, mod-eq_of_lt, add-mod_right}
use Prim.Native.Nat.{◌∣◌}
use native.Mathlib.Decide.{dec_lt}
use Prim.Native.Nat.{ℕ, zero, suc, ◌+◌, ◌-◌, ◌*◌, ◌/◌, ◌%◌, ◌≤◌, ◌<◌}
use mathlib.Core.Path.{◌≡◌, refl, ap, sym, ◌∙◌}
use mathlib.Core.Logic.{◌≢◌}
use mathlib.Core.List.{List, [], ◌∷◌, ◌++◌}
use native.Mathlib.Omega.{arith}
use acnet.Prelude.Tests.{==-refl}
use acnet.Prelude.Families.{update_at}
use acnet.Prelude.Lists.{length}
use acnet.Prelude.Words.{word}

mul_step : (s a b : ℕ) → a < b → s * a + s ≤ s * b
mul_step s a b h = grind arith

mul_mono : (s a b : ℕ) → b ≤ a → s * b ≤ s * a
mul_mono s a b h = grind arith

-- Two positions closer than the size have different slots.
pub mod_ne : (size a b : ℕ) → a < b → b < a + size → a % size ≢ b % size
mod_ne size a b h k e = elim (dec_lt (a / size) (b / size)) [
  | yes p ↦
      omega (arith, div-add-mod a size, div-add-mod b size, mul_step size (a / size) (b / size) p)
  | no p ↦ omega (
    arith,
    div-add-mod a size,
    div-add-mod b size,
    mul_mono size (a / size) (b / size) (omega arith),
  )
]

-- The slot of a position, whose index is kept modulo 2 ^ 64.
pub slot_of : (size p i : ℕ) → size ∣ word → i ≡ p % word → i % size ≡ p % size
slot_of size p i h e = rw e (mod-mod_of_dvd size p h)

module _ {ℓ} {A : Type ℓ} (f : ℕ → A) (size : ℕ) where
  -- The slots of the positions `t`, …, `t + n - 1`.
  abbrev pub window : ℕ → ℕ → List A
  window t zero = []
  window t (suc n) = f (t % size) ∷ window (suc t) n

  pub window-snoc : (t n : ℕ) → window t (suc n) ≡ window t n ++ f ((t + n) % size) ∷ []
  window-snoc t zero = ap (λ k. f (k % size) ∷ []) (sym (add-zero t))
  window-snoc t (suc n) =
      ap (λ xs. f (t % size) ∷ xs)
        (window-snoc (suc t) n ∙ ap (λ k. window (suc t) n ++ f (k % size) ∷ []) (omega arith))

  pub length-window : (t n : ℕ) → length (window t n) ≡ n
  length-window t zero = refl
  length-window t (suc n) = ap suc (length-window (suc t) n)

-- A write at a position behind the window, within the ring, does not change it.
pub window-update_at {ℓ} :
    {A : Type ℓ} (f : ℕ → A) (size p : ℕ) (a : A) (t n : ℕ)
    → t + n ≤ p
    → p < t + size
    → window (update_at f (p % size) a) size t n ≡ window f size t n
window-update_at f size p a t zero h k = refl
window-update_at f size p a t (suc n) h k = ground (
  arith,
  mod_ne size t p (omega arith) k,
  window-update_at f size p a (suc t) n (omega arith) (omega arith),
)

pub update_at_self {ℓ} : {A : Type ℓ} (f : ℕ → A) (i : ℕ) (a : A) → update_at f i a i ≡ a
update_at_self f i a = rw (==-refl i) refl

-- A write at the position behind the window appends.
pub window-push {ℓ} :
    {A : Type ℓ} (f : ℕ → A) (size p : ℕ) (a : A) (t n : ℕ)
    → p ≡ t + n
    → n < size
    → window (update_at f (p % size) a) size t (suc n) ≡ window f size t n ++ a ∷ []
window-push f size p a t n e h =
    let g = update_at f (p % size) a in
    window-snoc g size t n
    ∙ (ap (λ xs. xs ++ g ((t + n) % size) ∷ [])
          (window-update_at f size p a t n (omega arith) (omega arith))
        ∙ ap (λ b. window f size t n ++ b ∷ [])
            (ap (λ k. g (k % size)) (sym e) ∙ update_at_self f (p % size) a))

-- Each place of a ring is some steps ahead of any other.
pub on_ring : (n target i : ℕ) → target < n → i < n → (j : ℕ) × (j < n) × ((target + j) % n ≡ i)
on_ring n target i l h = elim (dec_lt i target) [
  | yes b ↦
      let e : target + (i + n - target) ≡ i + n = omega arith in
      (i + n - target, omega arith, ap (λ k. k % n) e ∙ add-mod_right i n ∙ mod-eq_of_lt h)
  | no b ↦
      let e : target + (i - target) ≡ i = omega arith in
      (i - target, omega arith, ap (λ k. k % n) e ∙ mod-eq_of_lt h)
]
