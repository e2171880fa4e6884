-- ===== src/Analyze/Groups.antt =====
-- The grouping of rows in research/replica_recall/analyze.py.
use nano_db.Common.{
  ap, refl, sym, ◌∙◌, inl, inr, Bool-cases, append-nil, append_assoc, length-append, ℕ, suc, ◌+◌,
  ◌≡◌, List, [], ◌∷◌, ◌++◌, Bool, true, false, Option, none, some, arith, if◌then◌else◌, length,
  Key, ◌==◌, nat_key, string_key,
}
use nano_db.Analyze.{
  Row, append_at, group_into, size_entry, size_bins, SizeBin, recall_by_size, instant_key,
}

module _ {K V : Type 0} ⦃e : Key K⦄ where
  -- The values stored under a key, none if it is absent.
  abbrev pub group_of : K → List (K × List V) → List V
  group_of k [] = []
  group_of k ((j, vs) ∷ groups) = if j == k then vs else group_of k groups

  -- The values of the rows with the key, in order.
  abbrev pub picked : (Row → Option (K × V)) → K → List Row → List V
  picked pick k [] = []
  picked pick k (r ∷ rows) =
      let rest = picked pick k rows in
      elim (pick r) [ none ↦ rest | some kv ↦ if kv.0 == k then kv.1 ∷ rest else rest ]

  group_of-append_at :
      (k j : K) (v : V) (groups : List (K × List V))
      → group_of k (append_at j v groups) ≡ group_of k groups ++ (if j == k then v ∷ [] else [])
  unfolding append_at
  group_of-append_at k j v [] = ground arith
  group_of-append_at k j v ((i, vs) ∷ groups) = elim (Bool-cases (i == j)) [
    | inl same ↦
        let q : i ≡ j = (e.same_iff i j).0 same in
        elim (Bool-cases (i == k)) [
          | inl hit ↦ let hit' : (j == k) ≡ true = rw q at hit in rw (same, hit, hit') refl
          | inr miss ↦
              let miss' : (j == k) ≡ false = rw q at miss in
              rw (same, miss, miss') (sym (append-nil (group_of k groups)))
        ]
    | inr other ↦ elim (Bool-cases (i == k)) [
      | inl hit ↦
          let q : i ≡ k = (e.same_iff i k).0 hit in
          let apart : (j == k) ≡ false = ground (arith, e.same_iff i j, e.same_iff j k) in
          rw (other, hit, apart) (sym (append-nil vs))
      | inr miss ↦ rw (other, miss) (group_of-append_at k j v groups)
    ]
  ]

  -- After the rows are grouped, the values under a key are those that were there, and then those
  -- of the rows with the key, in the rows' order.
  pub group_into_lem :
      (pick : Row → Option (K × V)) (k : K) (rows : List Row) (groups : List (K × List V))
      → group_of k (group_into pick rows groups) ≡ group_of k groups ++ picked pick k rows
  unfolding group_into
  group_into_lem pick k [] groups = sym (append-nil (group_of k groups))
  group_into_lem pick k (r ∷ rows) groups = step_lem (λ gs. group_into_lem pick k rows gs) (pick r)
    where
      join_lem :
          (xs ys : List V) (v : V) (b : Bool)
          → (xs ++ (if b then v ∷ [] else [])) ++ ys ≡ xs ++ (if b then v ∷ ys else ys)
      join_lem xs ys v true = append_assoc xs (v ∷ []) ys
      join_lem xs ys v false = ap (λ zs. zs ++ ys) (append-nil xs)

      step_lem :
          ((gs : List (K × List V))
            → group_of k (group_into pick rows gs) ≡ group_of k gs ++ picked pick k rows)
          → (o : Option (K × V))
          → group_of k (elim o [
            | none ↦ group_into pick rows groups
            | some kv ↦ group_into pick rows (append_at kv.0 kv.1 groups)
          ])
            ≡ group_of k groups ++ elim o [
              | none ↦ picked pick k rows
              | some kv ↦ if kv.0 == k then kv.1 ∷ picked pick k rows else picked pick k rows
            ]
      step_lem ih none = ih groups
      step_lem ih (some kv) =
          ih (append_at kv.0 kv.1 groups)
          ∙ ap (λ vs. vs ++ picked pick k rows) (group_of-append_at k kv.0 kv.1 groups)
          ∙ join_lem (group_of k groups) (picked pick k rows) kv.1 (kv.0 == k)

module _ {K V : Type 0} ⦃e : Key K⦄ where
  -- How many values are in the groups.
  abbrev pub grouped : List (K × List V) → ℕ
  grouped [] = 0
  grouped ((k, vs) ∷ groups) = length vs + grouped groups

  -- How many rows are picked.
  abbrev pub picks : (Row → Option (K × V)) → List Row → ℕ
  picks pick [] = 0
  picks pick (r ∷ rows) = elim (pick r) [ none ↦ 0 | some kv ↦ 1 ] + picks pick rows

  grouped-append_at :
      (k : K) (v : V) (groups : List (K × List V))
      → grouped (append_at k v groups) ≡ suc (grouped groups)
  unfolding append_at
  grouped-append_at k v [] = refl
  grouped-append_at k v ((j, vs) ∷ groups) =
      ground (arith, grouped-append_at k v groups, length-append vs (v ∷ []))

  pub grouped-group_into :
      (pick : Row → Option (K × V)) (rows : List Row) (groups : List (K × List V))
      → grouped (group_into pick rows groups) ≡ grouped groups + picks pick rows
  unfolding group_into
  grouped-group_into pick [] groups = omega arith
  grouped-group_into pick (r ∷ rows) groups =
      step_lem (λ gs. grouped-group_into pick rows gs) (pick r)
    where
      step_lem :
          ((gs : List (K × List V))
            → grouped (group_into pick rows gs) ≡ grouped gs + picks pick rows)
          → (o : Option (K × V))
          → grouped (elim o [
            | none ↦ group_into pick rows groups
            | some kv ↦ group_into pick rows (append_at kv.0 kv.1 groups)
          ])
            ≡ grouped groups + (elim o [ none ↦ 0 | some kv ↦ 1 ] + picks pick rows)
      step_lem ih none = omega (arith, ih groups)
      step_lem ih (some kv) =
          omega (arith, ih (append_at kv.0 kv.1 groups), grouped-append_at kv.0 kv.1 groups)

-- The samples of the bins together.
abbrev pub sum_counts : List SizeBin → ℕ
sum_counts [] = 0
sum_counts (b ∷ bins) = b.count + sum_counts bins

sum_counts-size_bins :
    (groups : List (ℕ × List (ℕ × Option ℕ))) → sum_counts (size_bins groups) ≡ grouped groups
unfolding size_bins
sum_counts-size_bins [] = refl
sum_counts-size_bins ((b, vals) ∷ groups) = omega (arith, sum_counts-size_bins groups)

-- The bins by index size hold together each row once that was reachable and has an index size and
-- a recall, and no other row.
pub sum_counts-recall_by_size :
    (rows : List Row) → sum_counts (recall_by_size rows) ≡ picks size_entry rows
unfolding recall_by_size
sum_counts-recall_by_size rows = omega (
  arith,
  sum_counts-size_bins (group_into size_entry rows []),
  grouped-group_into size_entry rows [],
)
