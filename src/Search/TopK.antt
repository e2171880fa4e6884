-- ===== src/Search/TopK.antt =====
-- One query of `exact_topk_rows` (research/replica_recall/metrics.py), over any sorting routines
-- that have the documented laws.
use nano_db.Common.{
  ℕ, zero, suc, ◌-◌, ◌<◌, min, ◌≡◌, ◌∙◌, refl, ap, subst, List, [], ◌∷◌, true, false, ◌||◌, inl,
  inr, arith, ◌==◌, nat_key, length, Bool-cases, All, get_or, take, drop, length-take,
}
use nano_db.Common.Int.{ℤ, pos}
use nano_db.Common.Sets.{contains, IsUnique}
use nano_db.Common.Sort.{IsSorted}
use nano_db.Search.{Numpy, IsNumpy, gather, by_dist, top_row}

-- The specification: which lists are a top-k of the distances `d`.
pub record IsTopK (d : List ℤ) (k : ℕ) (rows : List ℕ) : Type 0 where
  pub size : length rows ≡ min k (length d)
  pub unique : IsUnique rows
  pub in_range : (r : ℕ) → contains r rows ≡ true → r < length d
  pub nearest_first : IsSorted (by_dist d) rows
  pub best :
      (r s : ℕ)
      → contains r rows ≡ true
      → s < length d
      → contains s rows ≡ false
      → by_dist d r s ≡ true

take-all : (xs : List ℕ) → take (length xs) xs ≡ xs
take-all [] = refl
take-all (x ∷ xs) = ap (λ t. x ∷ t) (take-all xs)

contains-take-drop :
    (n a : ℕ) (xs : List ℕ) → contains a xs ≡ (contains a (take n xs) || contains a (drop n xs))
contains-take-drop zero a xs = refl
contains-take-drop (suc n) a [] = refl
contains-take-drop (suc n) a (x ∷ xs) = ground (arith, contains-take-drop n a xs)

take-IsUnique : (n : ℕ) (xs : List ℕ) → IsUnique xs → IsUnique (take n xs)
take-IsUnique zero xs u = tt
take-IsUnique (suc n) [] u = tt
take-IsUnique (suc n) (x ∷ xs) u =
    (ground (arith, contains-take-drop n x xs), take-IsUnique n xs u.1)

contains-get_or : (xs : List ℕ) (i : ℕ) → i < length xs → contains (get_or xs i 0) xs ≡ true
contains-get_or [] i h = absurd (omega arith)
contains-get_or (x ∷ xs) zero h = ground arith
contains-get_or (x ∷ xs) (suc i) h = ground (arith, contains-get_or xs i (omega arith))

index_of :
    (xs : List ℕ) (a : ℕ) → contains a xs ≡ true → (i : ℕ) × (i < length xs) × (get_or xs i 0 ≡ a)
index_of [] a h = absurd (cc)
index_of (x ∷ xs) a h = elim (Bool-cases (a == x)) [
  | inl here ↦ (0, omega arith, ground arith)
  | inr there ↦ let (i, fits, at) = index_of xs a (rw there at h) in (suc i, omega arith, at)
]

get_or-injective :
    (xs : List ℕ) (i j : ℕ)
    → IsUnique xs
    → i < length xs
    → j < length xs
    → get_or xs i 0 ≡ get_or xs j 0
    → i ≡ j
get_or-injective [] i j u hi hj e = absurd (omega arith)
get_or-injective (x ∷ xs) zero zero u hi hj e = refl
get_or-injective (x ∷ xs) zero (suc j) u hi hj e =
    ground (arith, contains-get_or xs j (omega arith))
get_or-injective (x ∷ xs) (suc i) zero u hi hj e =
    ground (arith, contains-get_or xs i (omega arith))
get_or-injective (x ∷ xs) (suc i) (suc j) u hi hj e =
    ap suc (get_or-injective xs i j u.1 (omega arith) (omega arith) e)

length-gather {ℓ} :
    {X : Type ℓ} (xs : List X) (v : X) (rows : List ℕ) → length (gather xs v rows) ≡ length rows
length-gather xs v [] = refl
length-gather xs v (r ∷ rows) = ap suc (length-gather xs v rows)

get_or-gather {ℓ} :
    {X : Type ℓ} (xs : List X) (v : X) (rows : List ℕ) (i : ℕ)
    → i < length rows
    → get_or (gather xs v rows) i v ≡ get_or xs (get_or rows i 0) v
get_or-gather xs v [] i h = absurd (omega arith)
get_or-gather xs v (r ∷ rows) zero h = refl
get_or-gather xs v (r ∷ rows) (suc i) h = get_or-gather xs v rows i (omega arith)

pub All-of_contains {ℓ} :
    (P : ℕ → Type ℓ) (xs : List ℕ) → ((i : ℕ) → contains i xs ≡ true → P i) → All P xs
All-of_contains P [] h = tt
All-of_contains P (i ∷ xs) h =
    (h i (ground arith), All-of_contains P xs (λ j m. h j (ground arith)))

-- `part[order]` for positions `order` of a list `part`.
module _ (part : List ℕ) where
  abbrev InRange : List ℕ → Type 0
  InRange order = All (λ i. i < length part) order

  contains-gather :
      (order : List ℕ) (a : ℕ)
      → InRange order
      → contains a (gather part 0 order) ≡ true
      → contains a part ≡ true
  contains-gather [] a h m = absurd (cc)
  contains-gather (i ∷ order) a h m =
      ground (arith, contains-get_or part i h.0, contains-gather order a h.1)

  gather-contains :
      (order : List ℕ) (i : ℕ)
      → contains i order ≡ true
      → contains (get_or part i 0) (gather part 0 order) ≡ true
  gather-contains [] i h = absurd (cc)
  gather-contains (j ∷ order) i h = elim (Bool-cases (i == j)) [
    | inl here ↦ let same : i ≡ j = ground arith in rw same (ground arith)
    | inr there ↦ ground (arith, gather-contains order i (rw there at h))
  ]

  index-gather :
      (order : List ℕ) (i : ℕ)
      → IsUnique part
      → InRange order
      → i < length part
      → contains (get_or part i 0) (gather part 0 order) ≡ true
      → contains i order ≡ true
  index-gather [] i u h hi m = absurd (cc)
  index-gather (j ∷ order) i u h hi m =
      ground (arith, get_or-injective part i j u hi h.0, index-gather order i u h.1 hi)

  gather-IsUnique :
      (order : List ℕ)
      → IsUnique part
      → InRange order
      → IsUnique order
      → IsUnique (gather part 0 order)
  gather-IsUnique [] u h v = tt
  gather-IsUnique (i ∷ order) u h v =
      (ground (arith, index-gather order i u h.1 h.0), gather-IsUnique order u h.1 v.1)

  module _ (d : List ℤ) where
    gather_le :
        (i : ℕ) (order : List ℕ)
        → i < length part
        → InRange order
        → All (λ j. by_dist (gather d (pos 0) part) i j ≡ true) order
        → All (λ r. by_dist d (get_or part i 0) r ≡ true) (gather part 0 order)
    gather_le i [] hi h a = tt
    gather_le i (j ∷ order) hi h a = (
      rw (get_or-gather d (pos 0) part i hi, get_or-gather d (pos 0) part j h.0) at a.0,
      gather_le i order hi h.1 a.1,
    )

    gather-IsSorted :
        (order : List ℕ)
        → InRange order
        → IsSorted (by_dist (gather d (pos 0) part)) order
        → IsSorted (by_dist d) (gather part 0 order)
    gather-IsSorted [] h s = tt
    gather-IsSorted (i ∷ order) h s = (gather_le i order h.0 h.1 s.0, gather-IsSorted order h.1 s.1)

contains-pos : (a n : ℕ) (xs : List ℕ) → contains a (take n xs) ≡ true → 0 < n
contains-pos a zero xs h = absurd (cc)
contains-pos a (suc n) xs h = omega arith

module _ (np : Numpy) (d : List ℤ) (k : ℕ) (laws : IsNumpy np) where
  abbrev k_eff : ℕ
  k_eff = min k (length d)

  abbrev whole : List ℕ
  whole = np.argpartition d (k_eff - 1)

  abbrev part : List ℕ
  part = take k_eff whole

  abbrev order : List ℕ
  order = np.argsort (gather d (pos 0) part)

  length-part : length part ≡ k_eff
  length-part = omega (arith, length-take k_eff whole, (laws.partition_indices d (k_eff - 1)).size)

  order-InRange : InRange part order
  order-InRange =
      All-of_contains (λ i. i < length part) order
        (λ i m.
          let sorted = laws.sort_indices (gather d (pos 0) part) in
          ground (arith, sorted.exact i, length-gather d (pos 0) part))

  contains-order : (i : ℕ) → i < length part → contains i order ≡ true
  contains-order i h =
      let sorted = laws.sort_indices (gather d (pos 0) part) in
      ground (arith, sorted.exact i, length-gather d (pos 0) part)

  -- What is in range and not among the chosen rows stands behind them in the partition.
  best_lem :
      (r s : ℕ)
      → contains r part ≡ true
      → s < length d
      → contains s part ≡ false
      → by_dist d r s ≡ true
  best_lem r s hr hs ms =
      let positive = contains-pos r k_eff whole hr in
      let e : k_eff ≡ suc (k_eff - 1) = omega arith in
      let everywhere = (laws.partition_indices d (k_eff - 1)).exact s in
      let behind : contains s (drop k_eff whole) ≡ true =
        ground (arith, contains-take-drop k_eff s whole) in
      laws.partition_le d (k_eff - 1) r s (subst (λ t. contains r (take t whole) ≡ true) e hr)
        (subst (λ t. contains s (drop t whole) ≡ true) e behind)

-- The rows that the code takes of one query are the nearest ones: k of them or all if there are
-- fewer, without repetition, nearest first, and no other row is nearer than one of them.
pub top_row-IsTopK :
    (np : Numpy) (d : List ℤ) (k : ℕ) → IsNumpy np → IsTopK d k (top_row np d (min k (length d)))
unfolding top_row
top_row-IsTopK np d k laws =
    let ps = part np d k laws in
    let os = order np d k laws in
    let inside = order-InRange np d k laws in
    let sorted = laws.sort_indices (gather d (pos 0) ps) in
    let unique =
      take-IsUnique (min k (length d)) (whole np d k laws)
        (laws.partition_indices d (min k (length d) - 1)).unique in
    record {
      size =
          length-gather ps 0 os
          ∙ sorted.size
          ∙ length-gather d (pos 0) ps
          ∙ length-part np d k laws;
      unique = gather-IsUnique ps os unique inside sorted.unique;
      in_range = λ r m.
          let chosen = contains-gather ps os r inside m in
          let all = (laws.partition_indices d (min k (length d) - 1)).exact r in
          ground (arith, contains-take-drop (min k (length d)) r (whole np d k laws));
      nearest_first = gather-IsSorted ps d os inside (laws.sort_ascends (gather d (pos 0) ps));
      best = λ r s m hs out.
          best_lem np d k laws r s (contains-gather ps os r inside m) hs (not_chosen s out);
    }
  where
    not_chosen :
        (s : ℕ)
        → contains s (gather (part np d k laws) 0 (order np d k laws)) ≡ false
        → contains s (part np d k laws) ≡ false
    not_chosen s out = elim (Bool-cases (contains s (part np d k laws))) [
      | inl there ↦
          let (i, fits, at) = index_of (part np d k laws) s there in
          let found =
            gather-contains (part np d k laws) (order np d k laws) i
              (contains-order np d k laws i fits) in
          cc (rw at at found, out)
      | inr gone ↦ gone
    ]
