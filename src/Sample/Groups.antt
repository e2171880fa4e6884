-- ===== src/Sample/Groups.antt =====
-- The grouping by shard of research/replica_recall/run_experiment.py, `sample_once`: what it keeps.
use nano_db.Common.{
  ℕ, ◌+◌, ◌≡◌, refl, List, [], ◌∷◌, ◌++◌, Bool, arith, All, Bool-cases, inl, inr, ◌==◌, nat_key,
  string_key, String,
}
use nano_db.Common.Sets.{count_if, count_if-append}
use nano_db.Common.Sort.{sort, place}
use nano_db.Analyze.{append_at}
use nano_db.Sample.{Entries, Raw, by_shard}

-- How many entries of the groups satisfy the test.
abbrev pub count_groups : (String → Bool) → List (ℕ × Entries) → ℕ
count_groups p [] = 0
count_groups p (g ∷ groups) = count_if (λ x. p x.0) g.1 + count_groups p groups

-- Every entry of every group has the property.
abbrev pub AllGroups : (Raw → Type 0) → List (ℕ × Entries) → Type 0
AllGroups P groups = All (λ g. All (λ x. P x.1) g.1) groups

All-append : {A : Type 0} (P : A → Type 0) (xs ys : List A) → All P xs → All P ys → All P (xs ++ ys)
All-append P [] ys h k = k
All-append P (x ∷ xs) ys h k = (h.0, All-append P xs ys h.1 k)

module _ (p : String → Bool) where
  count_groups-append_at :
      (s : ℕ) (x : String × Raw) (groups : List (ℕ × Entries))
      → count_groups p (append_at s x groups)
        ≡ count_if (λ y. p y.0) (x ∷ []) + count_groups p groups
  unfolding append_at
  count_groups-append_at s x [] = refl
  count_groups-append_at s x ((j, vs) ∷ groups) = ground (
    arith,
    count_groups-append_at s x groups,
    count_if-append (λ (y : String × Raw). p y.0) vs (x ∷ []),
  )

  count_groups-by_shard :
      (raw : Entries) (groups : List (ℕ × Entries))
      → count_groups p (by_shard raw groups) ≡ count_if (λ x. p x.0) raw + count_groups p groups
  unfolding by_shard
  count_groups-by_shard [] groups = omega arith
  count_groups-by_shard (x ∷ raw) groups = ground (
    arith,
    count_groups-by_shard raw (append_at x.1.probe.shard_id x groups),
    count_groups-append_at x.1.probe.shard_id x groups,
  )

  count_groups-place :
      (le : ℕ × Entries → ℕ × Entries → Bool) (g : ℕ × Entries) (groups : List (ℕ × Entries))
      → count_groups p (place le g groups) ≡ count_groups p (g ∷ groups)
  unfolding place
  count_groups-place le g [] = refl
  count_groups-place le g (h ∷ groups) = ground (arith, count_groups-place le g groups)

  pub count_groups-sort :
      (le : ℕ × Entries → ℕ × Entries → Bool) (groups : List (ℕ × Entries))
      → count_groups p (sort le groups) ≡ count_groups p groups
  unfolding sort
  count_groups-sort le [] = refl
  count_groups-sort le (g ∷ groups) =
      omega (arith, count_groups-place le g (sort le groups), count_groups-sort le groups)

  pub count_groups-raw :
      (le : ℕ × Entries → ℕ × Entries → Bool) (raw : Entries)
      → count_groups p (sort le (by_shard raw [])) ≡ count_if (λ x. p x.0) raw
  count_groups-raw le raw =
      omega (arith, count_groups-sort le (by_shard raw []), count_groups-by_shard raw [])

module _ (P : Raw → Type 0) where
  append_at-AllGroups :
      (s : ℕ) (x : String × Raw) (groups : List (ℕ × Entries))
      → P x.1
      → AllGroups P groups
      → AllGroups P (append_at s x groups)
  unfolding append_at
  append_at-AllGroups s x [] h k = ((h, tt), tt)
  append_at-AllGroups s x ((j, vs) ∷ groups) h k = elim (Bool-cases (j == s)) [
    | inl same ↦ rw same (All-append (λ y. P y.1) vs (x ∷ []) k.0 (h, tt), k.1)
    | inr other ↦ rw other (k.0, append_at-AllGroups s x groups h k.1)
  ]

  by_shard-AllGroups :
      (raw : Entries) (groups : List (ℕ × Entries))
      → All (λ x. P x.1) raw
      → AllGroups P groups
      → AllGroups P (by_shard raw groups)
  unfolding by_shard
  by_shard-AllGroups [] groups h k = k
  by_shard-AllGroups (x ∷ raw) groups h k =
      by_shard-AllGroups raw (append_at x.1.probe.shard_id x groups) h.1
        (append_at-AllGroups x.1.probe.shard_id x groups h.0 k)

  place-AllGroups :
      (le : ℕ × Entries → ℕ × Entries → Bool) (g : ℕ × Entries) (groups : List (ℕ × Entries))
      → All (λ x. P x.1) g.1
      → AllGroups P groups
      → AllGroups P (place le g groups)
  unfolding place
  place-AllGroups le g [] h k = (h, tt)
  place-AllGroups le g (x ∷ groups) h k = elim (Bool-cases (le g x)) [
    | inl small ↦ rw small (h, k)
    | inr large ↦ rw large (k.0, place-AllGroups le g groups h k.1)
  ]

  sort-AllGroups :
      (le : ℕ × Entries → ℕ × Entries → Bool) (groups : List (ℕ × Entries))
      → AllGroups P groups
      → AllGroups P (sort le groups)
  unfolding sort
  sort-AllGroups le [] h = tt
  sort-AllGroups le (g ∷ groups) h =
      place-AllGroups le g (sort le groups) h.0 (sort-AllGroups le groups h.1)

  pub raw-AllGroups :
      (le : ℕ × Entries → ℕ × Entries → Bool) (raw : Entries)
      → All (λ x. P x.1) raw
      → AllGroups P (sort le (by_shard raw []))
  raw-AllGroups le raw h = sort-AllGroups le (by_shard raw []) (by_shard-AllGroups raw [] h tt)
