-- ===== src/Metrics/Agreement.antt =====
-- The agreement of two answers, as `pairwise_agreement` and `leave_one_out_agreement` compute it
-- (research/replica_recall/metrics.py).
use nano_db.Common.{
  ℕ, ◌≤◌, ◌<◌, max, ◌≡◌, ◌↔◌, ◌∙◌, refl, sym, List, [], ◌∷◌, true, false, ◌&&◌, inl, inr, arith,
  Key, ◌==◌, none, some, length, take, is_empty, Bool-cases, All, zip,
}
use nano_db.Common.Sets.{
  contains, to_set, inter, IsUnique, IsSubset, contains-to_set, to_set-IsUnique, length-select-le,
  length-inter_comm, length-inter-eq_of_subset, subset_of_length-inter-eq,
}
use nano_db.Common.Frac.{Frac, ok, IsProportion, IsOne}
use nano_db.Metrics.{overlap, zip_scores, get_item, keys}

module _ {ℓ} {A : Type ℓ} ⦃e : Key A⦄ where
  -- The two answers have the same ids among the first k.
  abbrev pub SameTop : ℕ → List A → List A → Type ℓ
  SameTop k a b = IsSubset (take k a) (take k b) × IsSubset (take k b) (take k a)

  -- What is known of the score of a query that has one.
  pub record IsOverlap (k : ℕ) (a b : List A) (q : Frac) : Type ℓ where
    pub proportion : IsProportion q
    pub one_iff : IsOne q ↔ SameTop k a b

  inter-le_right : (s t : List A) → IsUnique s → IsUnique t → length (inter s t) ≤ length t
  inter-le_right s t u v =
      omega (arith, length-inter_comm s t u v, length-select-le (λ x. contains x s) t)

  set_overlap :
      (s t : List A)
      → IsUnique s
      → IsUnique t
      → (length (inter s t) ≡ max (length s) (length t)) ↔ (IsSubset s t × IsSubset t s)
  set_overlap s t u v =
      let le_s = length-select-le (λ x. contains x t) s in
      let le_t = inter-le_right s t u v in
      let swap = length-inter_comm s t u v in
      (
        λ h. (
          subset_of_length-inter-eq s t (omega arith),
          subset_of_length-inter-eq t s (omega arith),
        ),
        λ h. omega (arith, length-inter-eq_of_subset s t h.0, length-inter-eq_of_subset t s h.1),
      )

  pos_of_not_empty :
      (s t : List A) → (is_empty s && is_empty t) ≡ false → 0 < max (length s) (length t)
  pos_of_not_empty [] [] h = absurd (cc)
  pos_of_not_empty [] (y ∷ t) h = omega arith
  pos_of_not_empty (x ∷ s) t h = omega arith

  -- The score of a query whose answers are not both empty.
  overlap_lem :
      (k : ℕ) (a b : List A)
      → (is_empty (to_set (take k a)) && is_empty (to_set (take k b))) ≡ false
      → (q : Frac) × (overlap k a b ≡ ok (some q)) × IsOverlap k a b q
  unfolding overlap
  overlap_lem k a b h =
      let sa = to_set (take k a) in
      let sb = to_set (take k b) in
      let ua = to_set-IsUnique (take k a) in
      let ub = to_set-IsUnique (take k b) in
      let some_id = pos_of_not_empty sa sb h in
      let same = set_overlap sa sb ua ub in
      let in_a = λ (x : A). contains-to_set x (take k a) in
      let in_b = λ (x : A). contains-to_set x (take k b) in
      (
        record { num = length (inter sa sb); den = max (length sa) (length sb) },
        ground arith,
        record {
          proportion = record {
            positive = some_id;
            at_most_one = omega (arith, length-select-le (λ x. contains x sb) sa);
          };
          one_iff = (
            λ one.
                let (ab, ba) = same.0 one in
                (λ x m. sym (in_b x) ∙ ab x (in_a x ∙ m), λ x m. sym (in_a x) ∙ ba x (in_b x ∙ m)),
            λ both. same.1 (
              λ x m. in_b x ∙ both.0 x (sym (in_a x) ∙ m),
              λ x m. in_a x ∙ both.1 x (sym (in_b x) ∙ m),
            ),
          );
        },
      )

  not-contains_of_empty : (x : A) (s : List A) → is_empty s ≡ true → contains x s ≡ false
  not-contains_of_empty x [] h = refl
  not-contains_of_empty x (y ∷ s) h = cc

  all_absent : (xs ys : List A) → is_empty (to_set xs) ≡ true → IsSubset xs ys
  all_absent xs ys h x m = cc (contains-to_set x xs, not-contains_of_empty x (to_set xs) h, m)

  overlap_skip :
      (k : ℕ) (a b : List A)
      → (is_empty (to_set (take k a)) && is_empty (to_set (take k b))) ≡ true
      → (overlap k a b ≡ ok none) × SameTop k a b
  unfolding overlap
  overlap_skip k a b h =
      let empty_a : is_empty (to_set (take k a)) ≡ true = ground arith in
      let empty_b : is_empty (to_set (take k b)) ≡ true = ground arith in
      (
        ground arith,
        (all_absent (take k a) (take k b) empty_a, all_absent (take k b) (take k a) empty_b),
      )

  -- The scores of a pair: the division never fails, each score is a proportion, and all of them are
  -- 1 exactly if the answers to every query have the same ids.
  pub zip_scores_lem :
      (k : ℕ) (ps : List (List A × List A))
      → (scores : List Frac) × (zip_scores k ps ≡ ok scores)
        × All IsProportion scores
        × (All IsOne scores ↔ All (λ p. SameTop k p.0 p.1) ps)
  unfolding zip_scores
  zip_scores_lem k [] = ([], refl, tt, (λ h. tt, λ h. tt))
  zip_scores_lem k ((a, b) ∷ ps) =
      let (rest, e_rest, fine, iff) = zip_scores_lem k ps in
      let empty = is_empty (to_set (take k a)) && is_empty (to_set (take k b)) in
      elim (Bool-cases empty) [
        | inl both ↦
            let (e_skip, same) = overlap_skip k a b both in
            (rest, rw (e_skip, e_rest), fine, (λ h. (same, iff.0 h), λ h. iff.1 h.1))
        | inr one ↦
            let (q, e_q, good) = overlap_lem k a b one in
            (
              q ∷ rest,
              rw (e_q, e_rest),
              (good.proportion, fine),
              (λ h. (good.one_iff.0 h.0, iff.0 h.1), λ h. (good.one_iff.1 h.0, iff.1 h.1)),
            )
      ]

module _ {ℓ} {A : Type ℓ} ⦃e : Key A⦄ where
  overlap_comm : (k : ℕ) (a b : List A) → overlap k a b ≡ overlap k b a
  unfolding overlap
  overlap_comm k a b =
      let ua = to_set-IsUnique (take k a) in
      let ub = to_set-IsUnique (take k b) in
      ground (arith, length-inter_comm (to_set (take k a)) (to_set (take k b)) ua ub)

  pub zip_scores-swap :
      (k : ℕ) (xs ys : List (List A)) → zip_scores k (zip xs ys) ≡ zip_scores k (zip ys xs)
  unfolding zip_scores
  zip_scores-swap k [] [] = refl
  zip_scores-swap k [] (y ∷ ys) = refl
  zip_scores-swap k (x ∷ xs) [] = refl
  zip_scores-swap k (x ∷ xs) (y ∷ ys) = rw (overlap_comm k x y, zip_scores-swap k xs ys)

module _ {ℓ κ} {N : Type ℓ} {V : Type κ} ⦃e : Key N⦄ where
  pub get_item_lem :
      (d : List (N × V)) (n : N) → contains n (keys d) ≡ true → (v : V) × (get_item d n ≡ ok v)
  unfolding get_item
  get_item_lem [] n h = absurd (cc)
  get_item_lem ((m, v) ∷ d) n h = elim (Bool-cases (n == m)) [
    | inl here ↦ (v, rw here)
    | inr there ↦ let (w, found) = get_item_lem d n (rw there at h) in (w, rw there found)
  ]
