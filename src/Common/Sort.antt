-- ===== src/Common/Sort.antt =====
-- Python's `sorted`, as an insertion sort over a Boolean order, and what it keeps.
use Prim.Native.Nat.{suc}
use mathlib.Core.Path.{◌≡◌, refl}
use mathlib.Core.Logic.{◌⊎◌, inl, inr}
use mathlib.Core.Bool.{Bool, true, false, ◌||◌}
use mathlib.Core.List.{List, [], ◌∷◌}
use native.Mathlib.Omega.{arith}
use nano_db.Common.Tests.{Key, ◌==◌, if◌then◌else◌, Bool-cases}
use nano_db.Common.Lists.{length, All}
use nano_db.Common.Sets.{contains, IsUnique, count_if, any}

module _ {ℓ} {A : Type ℓ} where
  unfoldable pub place : (A → A → Bool) → A → List A → List A
  place le a [] = a ∷ []
  place le a (x ∷ xs) = let rest = x ∷ place le a xs in if le a x then a ∷ x ∷ xs else rest

  unfoldable pub sort : (A → A → Bool) → List A → List A
  unfolding place
  sort le [] = []
  sort le (x ∷ xs) = place le x (sort le xs)

  length-place :
      (le : A → A → Bool) (a : A) (xs : List A) → length (place le a xs) ≡ suc (length xs)
  unfolding place
  length-place le a [] = refl
  length-place le a (x ∷ xs) = ground (arith, length-place le a xs)

  pub length-sort : (le : A → A → Bool) (xs : List A) → length (sort le xs) ≡ length xs
  unfolding sort
  length-sort le [] = refl
  length-sort le (x ∷ xs) = ground (arith, length-place le x (sort le xs), length-sort le xs)

  -- Each element is at most the later ones.
  abbrev pub IsSorted : (A → A → Bool) → List A → Type 0
  IsSorted le [] = Unit
  IsSorted le (x ∷ xs) = All (λ y. le x y ≡ true) xs × IsSorted le xs

module _ {ℓ} {A : Type ℓ} (le : A → A → Bool)
    (total : (a b : A) → (le a b ≡ true) ⊎ (le b a ≡ true))
    (trans : (a b c : A) → le a b ≡ true → le b c ≡ true → le a c ≡ true) where
  All-place :
      (x a : A) (xs : List A)
      → le x a ≡ true
      → All (λ y. le x y ≡ true) xs
      → All (λ y. le x y ≡ true) (place le a xs)
  unfolding place
  All-place x a [] h k = (h, tt)
  All-place x a (y ∷ xs) h k = elim (Bool-cases (le a y)) [
    | inl small ↦ rw small (h, k)
    | inr large ↦ rw large (k.0, All-place x a xs h k.1)
  ]

  All-trans :
      (a x : A) (xs : List A)
      → le a x ≡ true
      → All (λ y. le x y ≡ true) xs
      → All (λ y. le a y ≡ true) xs
  All-trans a x [] h k = tt
  All-trans a x (y ∷ xs) h k = (trans a x y h k.0, All-trans a x xs h k.1)

  place-IsSorted : (a : A) (xs : List A) → IsSorted le xs → IsSorted le (place le a xs)
  unfolding place
  place-IsSorted a [] h = (tt, tt)
  place-IsSorted a (x ∷ xs) h = elim (Bool-cases (le a x)) [
    | inl small ↦ rw small ((small, All-trans a x xs small h.0), h)
    | inr large ↦
        let above : le x a ≡ true = ground (arith, total a x) in
        rw large (All-place x a xs above h.0, place-IsSorted a xs h.1)
  ]

  pub sort-IsSorted : (xs : List A) → IsSorted le (sort le xs)
  unfolding sort
  sort-IsSorted [] = tt
  sort-IsSorted (x ∷ xs) = place-IsSorted x (sort le xs) (sort-IsSorted xs)

module _ {ℓ} {A : Type ℓ} ⦃e : Key A⦄ (le : A → A → Bool) where
  contains-place : (b a : A) (xs : List A) → contains b (place le a xs) ≡ (b == a || contains b xs)
  unfolding place
  contains-place b a [] = refl
  contains-place b a (x ∷ xs) = ground (arith, contains-place b a xs)

  pub contains-sort : (b : A) (xs : List A) → contains b (sort le xs) ≡ contains b xs
  unfolding sort
  contains-sort b [] = refl
  contains-sort b (x ∷ xs) = ground (arith, contains-place b x (sort le xs), contains-sort b xs)

  place-IsUnique :
      (a : A) (xs : List A) → contains a xs ≡ false → IsUnique xs → IsUnique (place le a xs)
  unfolding place
  place-IsUnique a [] h u = (refl, tt)
  place-IsUnique a (x ∷ xs) h u = elim (Bool-cases (le a x)) [
    | inl small ↦ rw small (h, u)
    | inr large ↦ rw large (
      ground (arith, contains-place x a xs, e.same_iff x a, e.same_iff a x),
      place-IsUnique a xs (ground arith) u.1,
    )
  ]

  pub sort-IsUnique : (xs : List A) → IsUnique xs → IsUnique (sort le xs)
  unfolding sort
  sort-IsUnique [] u = tt
  sort-IsUnique (x ∷ xs) u =
      place-IsUnique x (sort le xs) (ground (arith, contains-sort x xs)) (sort-IsUnique xs u.1)

-- Counting and searching do not depend on the order.
module _ {ℓ} {A : Type ℓ} (le : A → A → Bool) (p : A → Bool) where
  count_if-place : (a : A) (xs : List A) → count_if p (place le a xs) ≡ count_if p (a ∷ xs)
  unfolding place
  count_if-place a [] = refl
  count_if-place a (x ∷ xs) = ground (arith, count_if-place a xs)

  pub count_if-sort : (xs : List A) → count_if p (sort le xs) ≡ count_if p xs
  unfolding sort
  count_if-sort [] = refl
  count_if-sort (x ∷ xs) = ground (arith, count_if-place x (sort le xs), count_if-sort xs)

  any-place : (a : A) (xs : List A) → any p (place le a xs) ≡ (p a || any p xs)
  unfolding place
  any-place a [] = refl
  any-place a (x ∷ xs) = ground (arith, any-place a xs)

  pub any-sort : (xs : List A) → any p (sort le xs) ≡ any p xs
  unfolding sort
  any-sort [] = refl
  any-sort (x ∷ xs) = ground (arith, any-place x (sort le xs), any-sort xs)
