-- ===== src/Metrics/Recall.antt =====
-- `recall_at_k` and `set_completeness` (research/replica_recall/metrics.py).
use nano_db.Common.{
  ℕ, zero, suc, ◌+◌, ◌≤◌, ◌<◌, ◌≡◌, ◌≢◌, ◌↔◌, ◌∙◌, refl, sym, List, [], ◌∷◌, true, inl, inr, arith,
  Key, length, take, Bool-cases,
}
use nano_db.Common.Sets.{
  contains, to_set, inter, diff, IsUnique, IsSubset, contains-to_set, to_set-IsUnique,
  length-select-le, length-inter_comm, length-inter-eq_of_subset, subset_of_length-inter-eq,
  length-select_complement,
}
use nano_db.Common.Frac.{Frac, ratio, ok, raise, zero_division_error, IsProportion, IsOne}
use nano_db.Metrics.{recall_at_k, set_completeness}

module _ {ℓ} {A : Type ℓ} ⦃e : Key A⦄ where
  to_set-pos : (x : A) (xs : List A) → 0 < length (to_set (x ∷ xs))
  to_set-pos x xs = elim (Bool-cases (contains x (to_set xs))) [
    | inl old ↦ rw old (nonempty (to_set xs) old)
    | inr new ↦ rw new (omega arith)
  ]
    where
      nonempty : (s : List A) → contains x s ≡ true → 0 < length s
      nonempty [] h = absurd (cc)
      nonempty (y ∷ s) h = omega arith

  inter_swap_le : (s t : List A) → IsUnique s → IsUnique t → length (inter s t) ≤ length t
  inter_swap_le s t u v =
      omega (arith, length-inter_comm s t u v, length-select-le (λ x. contains x s) t)

  -- `len(s & t) == len(t)` says that t is contained in s.
  inter-full_iff :
      (s t : List A) → IsUnique s → IsUnique t → (length (inter s t) ≡ length t) ↔ IsSubset t s
  inter-full_iff s t u v = (
    λ h. subset_of_length-inter-eq t s (sym (length-inter_comm s t u v) ∙ h),
    λ h. length-inter_comm s t u v ∙ length-inter-eq_of_subset t s h,
  )

  to_set-subset_iff : (xs ys : List A) → IsSubset (to_set xs) (to_set ys) ↔ IsSubset xs ys
  to_set-subset_iff xs ys = (
    λ h a m. sym (contains-to_set a ys) ∙ h a (contains-to_set a xs ∙ m),
    λ h a m. contains-to_set a ys ∙ h a (sym (contains-to_set a xs) ∙ m),
  )

  -- For a truth list with an element and a positive k the recall is a proportion, and it is 1
  -- exactly if each of the first k true ids is among the first k observed ids.
  pub recall_at_k_lem :
      (observed : List A) (t : A) (truth : List A) (k : ℕ)
      → (q : Frac) × (recall_at_k observed (t ∷ truth) (suc k) ≡ ok (ratio q))
        × IsProportion q
        × (IsOne q ↔ IsSubset (take (suc k) (t ∷ truth)) (take (suc k) observed))
  unfolding recall_at_k
  recall_at_k_lem observed t truth k =
      let ts = to_set (t ∷ take k truth) in
      let os = to_set (take (suc k) observed) in
      let us = to_set-IsUnique (take (suc k) observed) in
      let ut = to_set-IsUnique (t ∷ take k truth) in
      let some_true = to_set-pos t (take k truth) in
      let fits = inter-full_iff os ts us ut in
      let lists = to_set-subset_iff (t ∷ take k truth) (take (suc k) observed) in
      (
        record { num = length (inter os ts); den = length ts },
        ground arith,
        record { positive = some_true; at_most_one = inter_swap_le os ts us ut },
        (λ h. lists.0 (fits.0 h), λ h. fits.1 (lists.1 h)),
      )

  -- The division by zero is reached exactly if k is 0 and the truth list has an element.
  pub recall_at_k-raises_iff :
      (observed truth : List A) (k : ℕ)
      → (recall_at_k observed truth k ≡ raise zero_division_error) ↔ ((truth ≢ []) × (k ≡ 0))
  unfolding recall_at_k
  recall_at_k-raises_iff observed [] k = (λ h. cc, λ h. absurd (h.0 refl))
  recall_at_k-raises_iff observed (t ∷ truth) zero = (λ h. (λ p. cc, refl), λ h. refl)
  recall_at_k-raises_iff observed (t ∷ truth) (suc k) =
      let (q, returns, _, _) = recall_at_k_lem observed t truth k in
      (λ h. cc (sym returns ∙ h), λ h. absurd (omega arith))

  -- The completeness of a replica is a proportion of the intended ids; what is missing to 1 counts
  -- the intended ids that the replica does not hold, and it is 1 exactly if it holds them all.
  pub set_completeness_lem :
      (locals intended : List A)
      → IsUnique locals
      → IsUnique intended
      → intended ≢ []
      → (q : Frac) × (set_completeness locals intended ≡ ok (ratio q))
        × IsProportion q
        × (q.num + length (diff intended locals) ≡ q.den)
        × (IsOne q ↔ IsSubset intended locals)
  unfolding set_completeness
  set_completeness_lem locals [] u v h = absurd (h refl)
  set_completeness_lem locals (x ∷ xs) u v h =
      let s = x ∷ xs in
      let swap = length-inter_comm locals s u v in
      (
        record { num = length (inter locals s); den = length s },
        ground arith,
        record { positive = omega arith; at_most_one = inter_swap_le locals s u v },
        omega (arith, swap, length-select_complement (λ y. contains y locals) s),
        inter-full_iff locals s u v,
      )
