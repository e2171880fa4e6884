-- ===== src/Common/Members.antt =====
-- Lists whose set is empty, of one element, or as long as they are.
use mathlib.Core.Path.{◌≡◌, refl, ap, ap₂, sym, ◌∙◌}
use mathlib.Core.Logic.{◌↔◌, inl, inr}
use mathlib.Core.Bool.{true, false}
use mathlib.Core.List.{List, [], ◌∷◌}
use native.Mathlib.Omega.{arith}
use nano_db.Common.Tests.{Key, ◌==◌, Bool-cases}
use Prim.Native.Nat.{ℕ, zero, suc}
use mathlib.Core.Bool.{Bool}
use mathlib.Core.Option.{some}
use nano_db.Common.Lists.{length, is_empty, All, get_elem?}
use nano_db.Common.Sets.{any, contains, insert, to_set, IsUnique, eq_refl, contains-to_set}

module _ {ℓ} {A : Type ℓ} ⦃e : Key A⦄ where
  pub not-contains_of_empty : (xs : List A) → is_empty xs ≡ true → (a : A) → contains a xs ≡ false
  not-contains_of_empty [] h a = refl
  not-contains_of_empty (x ∷ xs) h a = absurd (cc)

  pub is_empty_of_none :
      (xs : List A) → ((a : A) → contains a xs ≡ true → false ≡ true) → is_empty xs ≡ true
  is_empty_of_none [] h = refl
  is_empty_of_none (x ∷ xs) h = absurd (ground (arith, h x, eq_refl x))

  -- A set of one element.
  pub to_set_of_equal :
      (c x : A) (xs : List A) → All (λ y. y ≡ c) (x ∷ xs) → to_set (x ∷ xs) ≡ c ∷ []
  to_set_of_equal c x [] h = ap (λ t. t ∷ []) h.0
  to_set_of_equal c x (y ∷ xs) h =
      let ih = to_set_of_equal c y xs h.1 in
      let there : contains c (c ∷ []) ≡ true = ground (arith, eq_refl c) in
      ap₂ insert h.0 ih ∙ rw there refl

  equal_of_one : (c : A) (s : List A) → contains c s ≡ true → length s ≡ 1 → s ≡ c ∷ []
  equal_of_one c [] h k = absurd (cc)
  equal_of_one c (x ∷ y ∷ s) h k = absurd (omega arith)
  equal_of_one c (x ∷ []) h k = elim (Bool-cases (c == x)) [
    | inl same ↦ ap (λ t. t ∷ []) (sym ((e.same_iff c x).0 same))
    | inr other ↦ absurd (ground arith)
  ]

  equal_members :
      (c : A) (s xs : List A)
      → ((a : A) → contains a xs ≡ true → contains a s ≡ true)
      → s ≡ c ∷ []
      → All (λ y. y ≡ c) xs
  equal_members c s [] h k = tt
  equal_members c s (x ∷ xs) h k =
      let here : contains x (c ∷ []) ≡ true =
        ap (contains x) (sym k) ∙ h x (ground (arith, eq_refl x)) in
      ((e.same_iff x c).0 (ground arith), equal_members c s xs (λ a m. h a (ground arith)) k)

  -- The set of the list has one element exactly if all of them are the first.
  pub to_set_of_equal_iff :
      (x : A) (xs : List A) → (length (to_set (x ∷ xs)) ≡ 1) ↔ All (λ y. y ≡ x) (x ∷ xs)
  to_set_of_equal_iff x xs = (
    λ h.
        equal_members x (to_set (x ∷ xs)) (x ∷ xs) (λ a m. contains-to_set a (x ∷ xs) ∙ m)
          (equal_of_one x (to_set (x ∷ xs)) (contains-to_set x (x ∷ xs) ∙ ground (arith, eq_refl x))
            h),
    λ h. ap length (to_set_of_equal x x xs h),
  )

  pub length-to_set : (xs : List A) → IsUnique xs → length (to_set xs) ≡ length xs
  length-to_set [] h = refl
  length-to_set (x ∷ xs) h = ground (arith, length-to_set xs h.1, contains-to_set x xs, h.0)

-- Some element passes the test exactly if there is a place of one.
pub any_iff {ℓ} :
    {A : Type ℓ} (p : A → Bool) (xs : List A)
    → (any p xs ≡ true) ↔ ((i : ℕ) × (x : A) × (get_elem? xs i ≡ some x) × (p x ≡ true))
any_iff {A = A} p [] = (λ h. absurd (cc), λ (i, x, e, h). absurd (cc))
any_iff {A = A} p (x ∷ xs) = elim (Bool-cases (p x)) [
  | inl here ↦ (λ _. (0, x, refl, here), λ _. rw here refl)
  | inr other ↦
      let ih = any_iff p xs in
      rw other (
        λ h. let (i, y, e, k) = ih.0 h in (suc i, y, e, k),
        λ (i, y, e, k). later other ih.1 i y e k,
      )
]
  where
    later :
        p x ≡ false
        → ((i : ℕ) × (y : A) × (get_elem? xs i ≡ some y) × (p y ≡ true) → any p xs ≡ true)
        → (i : ℕ) (y : A) → get_elem? (x ∷ xs) i ≡ some y
        → p y ≡ true
        → any p xs ≡ true
    later other h zero y e k = let same : x ≡ y = cc in absurd (cc (ap p same, other, k))
    later other h (suc i) y e k = h (i, y, e, k)
