-- ===== src/Common/Sets.antt =====
-- Finite sets as lists without repetitions, with the tests and sizes that the harness takes of them.
use Prim.Native.Nat.{ℕ, ◌+◌, ◌≤◌}
use mathlib.Core.Path.{◌≡◌, refl, ap, sym}
use mathlib.Core.Logic.{inl, inr}
use mathlib.Core.Bool.{Bool, true, false, not, ◌&&◌, ◌||◌}
use mathlib.Core.List.{List, [], ◌∷◌, ◌++◌}
use native.Mathlib.Omega.{arith}
use nano_db.Common.Tests.{Key, ◌==◌, if◌then◌else◌, Bool-cases}
use nano_db.Common.Lists.{length}

-- `[x for x in xs if p(x)]`.
abbrev pub select {ℓ} : {A : Type ℓ} → (A → Bool) → List A → List A
select p [] = []
select p (x ∷ xs) = let rest = select p xs in if p x then x ∷ rest else rest

-- How many elements pass the test.
abbrev pub count_if {ℓ} : {A : Type ℓ} → (A → Bool) → List A → ℕ
count_if p xs = length (select p xs)

abbrev pub any {ℓ} : {A : Type ℓ} → (A → Bool) → List A → Bool
any p [] = false
any p (x ∷ xs) = p x || any p xs

module _ {ℓ} {A : Type ℓ} where
  pub length-select-le : (p : A → Bool) (xs : List A) → length (select p xs) ≤ length xs
  length-select-le p [] = omega arith
  length-select-le p (x ∷ xs) = ground (arith, length-select-le p xs)

  pub length-select_complement :
      (p : A → Bool) (xs : List A)
      → length (select p xs) + length (select (λ x. not (p x)) xs) ≡ length xs
  length-select_complement p [] = omega arith
  length-select_complement p (x ∷ xs) = ground (arith, length-select_complement p xs)

  pub count_if-append :
      (p : A → Bool) (xs ys : List A) → count_if p (xs ++ ys) ≡ count_if p xs + count_if p ys
  count_if-append p [] ys = omega arith
  count_if-append p (x ∷ xs) ys = ground (arith, count_if-append p xs ys)

module _ {ℓ} {A : Type ℓ} ⦃e : Key A⦄ where
  -- `a in xs`.
  abbrev pub contains : A → List A → Bool
  contains a [] = false
  contains a (x ∷ xs) = a == x || contains a xs

  abbrev pub insert : A → List A → List A
  insert a s = if contains a s then s else a ∷ s

  -- `set(xs)`.
  abbrev pub to_set : List A → List A
  to_set [] = []
  to_set (x ∷ xs) = insert x (to_set xs)

  -- `s & t`.
  abbrev pub inter : List A → List A → List A
  inter s t = select (λ x. contains x t) s

  -- `s - t`.
  abbrev pub diff : List A → List A → List A
  diff s t = select (λ x. not (contains x t)) s

  -- The list has no repetition: it stands for a Python set, or for the keys of a dict.
  abbrev pub IsUnique : List A → Type 0
  IsUnique [] = Unit
  IsUnique (x ∷ xs) = (contains x xs ≡ false) × IsUnique xs

  -- Every element of the first list is in the second.
  abbrev pub IsSubset : List A → List A → Type ℓ
  IsSubset s t = (a : A) → contains a s ≡ true → contains a t ≡ true

module _ {ℓ} {A : Type ℓ} ⦃e : Key A⦄ where
  pub eq_refl : (a : A) → (a == a) ≡ true
  eq_refl a = (e.same_iff a a).1 refl

  pub contains-to_set : (a : A) (xs : List A) → contains a (to_set xs) ≡ contains a xs
  contains-to_set a [] = refl
  contains-to_set a (x ∷ xs) =
      ground (arith, contains-to_set a xs, contains-to_set x xs, e.same_iff a x)

  pub to_set-IsUnique : (xs : List A) → IsUnique (to_set xs)
  to_set-IsUnique [] = tt
  to_set-IsUnique (x ∷ xs) = elim (Bool-cases (contains x (to_set xs))) [
    | inl old ↦ rw old (to_set-IsUnique xs)
    | inr new ↦ rw new (new, to_set-IsUnique xs)
  ]

  pub length-to_set-le : (xs : List A) → length (to_set xs) ≤ length xs
  length-to_set-le [] = omega arith
  length-to_set-le (x ∷ xs) = ground (arith, length-to_set-le xs)

  pub contains-select :
      (a : A) (p : A → Bool) (xs : List A) → contains a (select p xs) ≡ (p a && contains a xs)
  contains-select a p [] = ground arith
  contains-select a p (x ∷ xs) = elim (Bool-cases (a == x)) [
    | inl same ↦
        let q : a ≡ x = (e.same_iff a x).0 same in ground (arith, contains-select a p xs, ap p q)
    | inr other ↦ ground (arith, contains-select a p xs)
  ]

  pub contains-append :
      (a : A) (xs ys : List A) → contains a (xs ++ ys) ≡ (contains a xs || contains a ys)
  contains-append a [] ys = refl
  contains-append a (x ∷ xs) ys = ground (arith, contains-append a xs ys)

  pub select-IsUnique : (p : A → Bool) (xs : List A) → IsUnique xs → IsUnique (select p xs)
  select-IsUnique p [] h = tt
  select-IsUnique p (x ∷ xs) h = elim (Bool-cases (p x)) [
    | inl keep ↦ rw keep (ground (arith, contains-select x p xs), select-IsUnique p xs h.1)
    | inr skip ↦ rw skip (select-IsUnique p xs h.1)
  ]

  contains_one : A → List A → ℕ
  contains_one a t = if contains a t then 1 else 0

  -- Adding an element to the set that is tested for selects it once more.
  length-select-insert :
      (x : A) (s t : List A)
      → contains x s ≡ false
      → IsUnique t
      → length (select (λ y. y == x || contains y s) t) ≡ length (inter t s) + contains_one x t
  unfolding contains_one
  length-select-insert x s [] out u = omega arith
  length-select-insert x s (y ∷ t) out u = elim (Bool-cases (y == x)) [
    | inl same ↦
        let q : y ≡ x = (e.same_iff y x).0 same in
        let absent : contains x t ≡ false = rw q at u.0 in
        let y_out : contains y s ≡ false = rw (sym q) at out in
        let here : (x == y) ≡ true = (e.same_iff x y).1 (sym q) in
        ground (arith, length-select-insert x s t out u.1)
    | inr other ↦
        let apart : (x == y) ≡ false = apart_lem y x other in
        ground (arith, length-select-insert x s t out u.1)
  ]
    where
      apart_lem : (a b : A) → (a == b) ≡ false → (b == a) ≡ false
      apart_lem a b h = ground (arith, e.same_iff a b, e.same_iff b a)

  inter-nil : (t : List A) → length (inter t []) ≡ 0
  inter-nil [] = refl
  inter-nil (x ∷ t) = inter-nil t

  -- `len(s & t) == len(t & s)`.
  pub length-inter_comm :
      (s t : List A) → IsUnique s → IsUnique t → length (inter s t) ≡ length (inter t s)
  unfolding contains_one
  length-inter_comm [] t u v = sym (inter-nil t)
  length-inter_comm (x ∷ s) t u v =
      ground (arith, length-inter_comm s t u.1 v, length-select-insert x s t u.0 v)

  -- The common part is as large as the set exactly if the set is contained in the other one.
  pub length-inter-eq_of_subset : (s t : List A) → IsSubset s t → length (inter s t) ≡ length s
  length-inter-eq_of_subset [] t h = refl
  length-inter-eq_of_subset (x ∷ s) t h =
      let rest = length-inter-eq_of_subset s t (λ a m. h a (ground arith)) in
      ground (arith, h x (ground (arith, eq_refl x)))

  pub subset_of_length-inter-eq : (s t : List A) → length (inter s t) ≡ length s → IsSubset s t
  subset_of_length-inter-eq [] t h a m = cc
  subset_of_length-inter-eq (x ∷ s) t h a m = elim (Bool-cases (contains x t)) [
    | inl found ↦
        let shorter : length (inter s t) ≡ length s = ground arith in
        let same = e.same_iff a x in
        elim (Bool-cases (a == x)) [
          | inl hit ↦ rw (same.0 hit) found
          | inr miss ↦ subset_of_length-inter-eq s t shorter a (rw miss at m)
        ]
    | inr lost ↦ absurd (ground (arith, length-select-le (λ y. contains y t) s))
  ]
