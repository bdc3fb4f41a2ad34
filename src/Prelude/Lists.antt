-- ===== src/Prelude/Lists.antt =====
-- Lists measured by native numbers, and finite sets of identifiers as lists without repetition.
use Prim.Native.Nat.{ℕ, suc, ◌+◌}
use mathlib.Core.Path.{◌≡◌, refl, ap}
use mathlib.Core.Logic.{◌⊎◌, inl, inr}
use mathlib.Core.Bool.{Bool, true, false, not, ◌&&◌, ◌||◌}
use mathlib.Core.List.{List, [], ◌∷◌, ◌++◌}
use native.Mathlib.Omega.{arith}
use acnet.Prelude.Tests.{◌==◌, if◌then◌else◌}

module _ {ℓ} {A : Type ℓ} where
  abbrev pub length : List A → ℕ
  length [] = 0
  length (x ∷ xs) = suc (length xs)

  abbrev pub is_empty : List A → Bool
  is_empty [] = true
  is_empty (x ∷ xs) = false

  pub length-append : (xs ys : List A) → length (xs ++ ys) ≡ length xs + length ys
  length-append [] ys = omega arith
  length-append (x ∷ xs) ys = omega (arith, length-append xs ys)

-- `std::unordered_set<std::size_t>`: membership, `insert` and `erase`.
unfoldable pub contains : ℕ → List ℕ → Bool
contains a [] = false
contains a (x ∷ xs) = a == x || contains a xs

unfoldable pub insert : ℕ → List ℕ → List ℕ
insert a xs = if contains a xs then xs else a ∷ xs

unfoldable pub erase : ℕ → List ℕ → List ℕ
erase a [] = []
erase a (x ∷ xs) = if a == x then erase a xs else x ∷ erase a xs

pub contains-insert : (b a : ℕ) (xs : List ℕ) → contains b (insert a xs) ≡ (b == a || contains b xs)
unfolding contains insert
contains-insert b a xs = ground (arith, contains_eq b a xs)
  where
    contains_eq : (b a : ℕ) (xs : List ℕ) → b ≡ a → contains b xs ≡ contains a xs
    contains_eq b a xs e = ground arith

pub contains-erase :
    (b a : ℕ) (xs : List ℕ) → contains b (erase a xs) ≡ (not (b == a) && contains b xs)
unfolding contains erase
contains-erase b a [] = ground arith
contains-erase b a (x ∷ xs) = ground (arith, contains-erase b a xs)

-- How often a number stands in a list.
abbrev pub count : ℕ → List ℕ → ℕ
count p [] = 0
count p (q ∷ qs) = if p == q then suc (count p qs) else count p qs

pub count-append : (p : ℕ) (xs ys : List ℕ) → count p (xs ++ ys) ≡ count p xs + count p ys
count-append p [] ys = omega arith
count-append p (x ∷ xs) ys = ground (arith, count-append p xs ys)

module _ {ℓ} {A : Type ℓ} where
  pub list_cases : (xs : List A) → (xs ≡ []) ⊎ ((y : A) × (ys : List A) × (xs ≡ y ∷ ys))
  list_cases [] = inl refl
  list_cases (x ∷ xs) = inr (x, xs, refl)

  pub snoc_cases : (xs : List A) → (xs ≡ []) ⊎ ((ys : List A) × (y : A) × (xs ≡ ys ++ y ∷ []))
  snoc_cases [] = inl refl
  snoc_cases (x ∷ xs) = elim (snoc_cases xs) [
    | inl e ↦ inr ([], x, ap (λ zs. x ∷ zs) e)
    | inr (ys, y, e) ↦ inr (x ∷ ys, y, ap (λ zs. x ∷ zs) e)
  ]

-- Lists that end in an element agree in it and in what stands before it.
pub snoc_injective : (xs ys : List ℕ) (x y : ℕ) → xs ++ x ∷ [] ≡ ys ++ y ∷ [] → (xs ≡ ys) × (x ≡ y)
snoc_injective [] [] x y h = (refl, ground arith)
snoc_injective [] (b ∷ []) x y h = absurd (ground arith)
snoc_injective [] (b ∷ c ∷ ys) x y h = absurd (ground arith)
snoc_injective (a ∷ []) [] x y h = absurd (ground arith)
snoc_injective (a ∷ c ∷ xs) [] x y h = absurd (ground arith)
snoc_injective (a ∷ xs) (b ∷ ys) x y h =
    let (p, q) = snoc_injective xs ys x y (ground arith) in (ground arith, q)
