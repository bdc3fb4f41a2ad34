-- ===== src/Prelude/Families.antt =====
-- Families indexed by numbers, such as the slots of an array and the places of threads: an update at
-- one index, and the number of indices with a property.
use Prim.Native.Nat.{ℕ, zero, suc, ◌+◌, ◌*◌, ◌≤◌, ◌<◌}
use mathlib.Core.Path.{◌≡◌, refl, subst, ap}
use mathlib.Core.Logic.{◌≢◌}
use mathlib.Core.Logic.{inl, inr}
use mathlib.Core.Bool.{Bool, true, false}
use native.Mathlib.Omega.{arith}
use acnet.Prelude.Tests.{◌==◌, if◌then◌else◌, Bool-cases, ==-to_eq}

abbrev pub update_at {ℓ} : {A : Type ℓ} → (ℕ → A) → ℕ → A → ℕ → A
update_at f i a j = if i == j then a else f j

pub update_at-other {ℓ} :
    {A : Type ℓ} (f : ℕ → A) (i : ℕ) (a : A) (j : ℕ) → i ≢ j → update_at f i a j ≡ f j
update_at-other f i a j d = ground arith

-- What holds of the new member and of every other one holds of all.
pub update_at-all {ℓ κ} :
    {A : Type ℓ} (Q : ℕ → A → Type κ) (f : ℕ → A) (i : ℕ) (a : A)
    → Q i a
    → ((j : ℕ) → i ≢ j → Q j (f j))
    → (j : ℕ) → Q j (update_at f i a j)
update_at-all Q f i a here others j = elim (Bool-cases (i == j)) [
  | inl e ↦ simp e (subst (λ k. Q k a) (ground arith) here)
  | inr e ↦ simp e (others j (ground arith))
]

-- The sum of the sizes of the first `n` members.
module _ {ℓ} {A : Type ℓ} (size : A → ℕ) where
  pub sum_of : (n : ℕ) (f : ℕ → A) → ℕ
  sum_of zero f = 0
  sum_of (suc k) f = size (f k) + sum_of k f

  sum_of-update_beyond :
      (f : ℕ → A) (i : ℕ) (a : A) (n : ℕ) → n ≤ i → sum_of n f ≡ sum_of n (update_at f i a)
  unfolding sum_of
  sum_of-update_beyond f i a zero b = refl
  sum_of-update_beyond f i a (suc k) b = ground (arith, sum_of-update_beyond f i a k)

  -- The new member's size takes the place of the old one's.
  pub sum_of-update :
      (n : ℕ) (f : ℕ → A) (i : ℕ) (a : A)
      → i < n
      → size a + sum_of n f ≡ size (f i) + sum_of n (update_at f i a)
  unfolding sum_of
  sum_of-update zero f i a b = absurd (omega arith)
  sum_of-update (suc k) f i a b = elim (Bool-cases (i == k)) [
    | inl here ↦ ground (arith, sum_of-update_beyond f i a k)
    | inr elsewhere ↦ ground (arith, sum_of-update k f i a)
  ]

  pub sum_of-member : (n : ℕ) (f : ℕ → A) (i : ℕ) → i < n → size (f i) ≤ sum_of n f
  unfolding sum_of
  sum_of-member zero f i b = absurd (omega arith)
  sum_of-member (suc k) f i b = elim (Bool-cases (i == k)) [
    | inl here ↦ ground (arith, ap (λ j. size (f j)) (==-to_eq i k here))
    | inr elsewhere ↦ ground (arith, sum_of-member k f i)
  ]

  pub sum_of-none : (n : ℕ) (f : ℕ → A) → ((i : ℕ) → i < n → size (f i) ≡ 0) → sum_of n f ≡ 0
  unfolding sum_of
  sum_of-none zero f h = refl
  sum_of-none (suc k) f h =
      omega (arith, h k (omega arith), sum_of-none k f (λ i l. h i (omega arith)))

  pub sum_of-le : (c : ℕ) → ((a : A) → size a ≤ c) → (n : ℕ) (f : ℕ → A) → sum_of n f ≤ c * n
  unfolding sum_of
  sum_of-le c h zero f = omega arith
  sum_of-le c h (suc k) f = grind (arith, h (f k), sum_of-le c h k f)

module _ {ℓ} {A : Type ℓ} (p : A → Bool) where
  abbrev pub one : A → ℕ
  one a = if p a then 1 else 0

  -- How many of the first `n` have the property.
  abbrev pub number_of : ℕ → (ℕ → A) → ℕ
  number_of n f = sum_of one n f

  pub number_of-update :
      (n : ℕ) (f : ℕ → A) (i : ℕ) (a : A)
      → i < n
      → number_of n (update_at f i a) + one (f i) ≡ number_of n f + one a
  number_of-update n f i a b = omega (arith, sum_of-update one n f i a b)

  pub number_of-pos : (n : ℕ) (f : ℕ → A) (i : ℕ) → i < n → p (f i) ≡ true → 0 < number_of n f
  unfolding sum_of
  number_of-pos zero f i b e = absurd (omega arith)
  number_of-pos (suc k) f i b e = elim (Bool-cases (i == k)) [
    | inl here ↦ ground (arith, e)
    | inr elsewhere ↦ ground (arith, number_of-pos k f i (ground arith) e)
  ]

  pub number_of-same :
      (n : ℕ) (f g : ℕ → A) → ((i : ℕ) → p (f i) ≡ p (g i)) → number_of n f ≡ number_of n g
  unfolding sum_of
  number_of-same zero f g h = refl
  number_of-same (suc k) f g h = ground (arith, number_of-same k f g h, h k)

  pub number_of-none : (n : ℕ) (f : ℕ → A) → ((i : ℕ) → p (f i) ≡ false) → number_of n f ≡ 0
  unfolding sum_of
  number_of-none zero f h = refl
  number_of-none (suc k) f h = ground (arith, number_of-none k f h, h k)

  pub number_of-le : (n : ℕ) (f : ℕ → A) → number_of n f ≤ n
  unfolding sum_of
  number_of-le zero f = omega arith
  number_of-le (suc k) f = ground (arith, number_of-le k f)

  -- Some index has the property.
  pub number_of-find :
      (n : ℕ) (f : ℕ → A) → 0 < number_of n f → (i : ℕ) × (i < n) × (p (f i) ≡ true)
  unfolding sum_of
  number_of-find zero f h = absurd (omega arith)
  number_of-find (suc k) f h = elim (Bool-cases (p (f k))) [
    | inl e ↦ (k, omega arith, e)
    | inr e ↦ let (i, b, q) = number_of-find k f (ground (arith, e)) in (i, omega arith, q)
  ]
