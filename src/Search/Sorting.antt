-- ===== src/Search/Sorting.antt =====
-- An instance of numpy's sorting routines: both as an insertion sort of the indices.
use nano_db.Common.{
  ℕ, zero, suc, ◌+◌, ◌≤◌, ◌<◌, ◌≡◌, ◌⊎◌, ◌∙◌, refl, ap, List, [], ◌∷◌, Bool, true, false, inl, inr,
  arith, nat_key, length, eqb, ltb, Bool-cases, All, take, drop, range, range_from,
}
use nano_db.Common.Int.{ℤ, leb_ℤ}
use nano_db.Common.Sets.{contains, IsUnique}
use nano_db.Common.Sort.{sort, IsSorted, length-sort, contains-sort, sort-IsUnique, sort-IsSorted}
use nano_db.Search.{Numpy, IsNumpy, IsIndices, by_dist, dist_at}

length-range_from : (s n : ℕ) → length (range_from s n) ≡ n
length-range_from s zero = refl
length-range_from s (suc n) = ap suc (length-range_from (suc s) n)

range_from-above : (s n i : ℕ) → i < s → contains i (range_from s n) ≡ false
range_from-above s zero i h = refl
range_from-above s (suc n) i h = ground (arith, range_from-above (suc s) n i (omega arith))

range_from-IsUnique : (s n : ℕ) → IsUnique (range_from s n)
range_from-IsUnique s zero = tt
range_from-IsUnique s (suc n) =
    (range_from-above (suc s) n s (omega arith), range_from-IsUnique (suc s) n)

contains-range_from : (s n i : ℕ) → s ≤ i → contains i (range_from s n) ≡ ltb i (s + n)
contains-range_from s zero i h = ground arith
contains-range_from s (suc n) i h = elim (Bool-cases (eqb i s)) [
  | inl here ↦ ground arith
  | inr there ↦ ground (arith, contains-range_from (suc s) n i (ground arith))
]

leb_ℤ_total : (a b : ℤ) → (leb_ℤ a b ≡ true) ⊎ (leb_ℤ b a ≡ true)
leb_ℤ_total a b = ground arith

leb_ℤ_trans : (a b c : ℤ) → leb_ℤ a b ≡ true → leb_ℤ b c ≡ true → leb_ℤ a c ≡ true
leb_ℤ_trans a b c h k = ground arith

All-contains :
    (le : ℕ → ℕ → Bool) (i j : ℕ) (xs : List ℕ)
    → All (λ y. le i y ≡ true) xs
    → contains j xs ≡ true
    → le i j ≡ true
All-contains le i j [] h m = absurd (cc)
All-contains le i j (x ∷ xs) h m = elim (Bool-cases (eqb j x)) [
  | inl here ↦ let same : j ≡ x = ground arith in rw same h.0
  | inr there ↦ All-contains le i j xs h.1 (rw there at m)
]

contains-drop : (n a : ℕ) (xs : List ℕ) → contains a (drop n xs) ≡ true → contains a xs ≡ true
contains-drop zero a xs m = m
contains-drop (suc n) a [] m = m
contains-drop (suc n) a (x ∷ xs) m = ground (arith, contains-drop n a xs)

sorted_split :
    (le : ℕ → ℕ → Bool) (n i j : ℕ) (xs : List ℕ)
    → IsSorted le xs
    → contains i (take n xs) ≡ true
    → contains j (drop n xs) ≡ true
    → le i j ≡ true
sorted_split le zero i j xs s hi hj = absurd (cc)
sorted_split le (suc n) i j [] s hi hj = absurd (cc)
sorted_split le (suc n) i j (x ∷ xs) s hi hj = elim (Bool-cases (eqb i x)) [
  | inl here ↦
      let same : i ≡ x = ground arith in
      rw same (All-contains le x j xs s.0 (contains-drop n j xs hj))
  | inr there ↦ sorted_split le n i j xs s.1 (rw there at hi) hj
]

unfoldable pub index_sort : List ℤ → List ℕ
index_sort d = sort (by_dist d) (range (length d))

index_sort-IsSorted : (d : List ℤ) → IsSorted (by_dist d) (index_sort d)
unfolding index_sort
index_sort-IsSorted d =
    sort-IsSorted (by_dist d) (λ a b. leb_ℤ_total (dist_at d a) (dist_at d b))
      (λ a b c h k. leb_ℤ_trans (dist_at d a) (dist_at d b) (dist_at d c) h k) (range (length d))

index_sort-IsIndices : (d : List ℤ) → IsIndices (length d) (index_sort d)
unfolding index_sort
index_sort-IsIndices d = record {
  unique = sort-IsUnique (by_dist d) (range (length d)) (range_from-IsUnique 0 (length d));
  size = length-sort (by_dist d) (range (length d)) ∙ length-range_from 0 (length d);
  exact = λ i.
      contains-sort (by_dist d) i (range (length d))
      ∙ contains-range_from 0 (length d) i (omega arith)
      ∙ ap (ltb i) (omega arith);
}

abbrev pub sorting : Numpy
sorting = record { argpartition = λ d kth. index_sort d; argsort = index_sort }

pub sorting-IsNumpy : IsNumpy sorting
sorting-IsNumpy = record {
  partition_indices = λ d kth. index_sort-IsIndices d;
  partition_le = λ d kth i j hi hj.
      sorted_split (by_dist d) (suc kth) i j (index_sort d) (index_sort-IsSorted d) hi hj;
  sort_indices = index_sort-IsIndices;
  sort_ascends = index_sort-IsSorted;
}
