-- ===== src/Analyze.antt =====
-- research/replica_recall/analyze.py: the samples of a run and what is computed from them. The
-- CSV files hold six decimals, so a score is a whole number of millionths (1 is 1000000), and none
-- stands for NaN: an empty cell. Means are exact quotients.
pub mod Groups
pub mod Detection
pub mod Heal
pub mod Windows
pub mod Summary
pub mod Report
pub mod Tests
use nano_db.Common.{
  ap, ap₂, ◌↔◌, ℕ, zero, suc, ◌+◌, ◌-◌, ◌*◌, ◌/◌, ◌≤◌, ◌≡◌, List, [], ◌∷◌, ◌++◌, map, Bool, true,
  false, not, ◌&&◌, ◌||◌, Option, none, some, arith, if◌then◌else◌, length, ltb, leb, eqb, String,
  Key, ◌==◌, min, max, nat_key, string_key,
}
use nano_db.Common.Sets.{count_if}
use nano_db.Common.Frac.{Frac}

-- A row of samples.csv: whether "reachable" is "1", the text of "t_rel", which groups rows, and
-- the cells that `_f` reads. "t_rel" is in thousandths, the counts are whole numbers.
pub record Row : Type 0 where
  pub reachable : Bool
  pub t_text : String
  pub t_rel : Option ℕ
  pub name : String
  pub shard : String
  pub e2e_recall : Option ℕ
  pub index_recall : Option ℕ
  pub completeness : Option ℕ
  pub loo_agreement : Option ℕ
  pub n_local : Option ℕ
  pub n_intended : Option ℕ

-- `[x for x in xs if not np.isnan(x)]`.
unfoldable pub known : List (Option ℕ) → List ℕ
known [] = []
known (none ∷ xs) = known xs
known (some x ∷ xs) = x ∷ known xs

unfoldable pub total : List ℕ → ℕ
total [] = 0
total (x ∷ xs) = x + total xs

-- `float(np.mean(xs)) if xs else float("nan")`.
unfoldable pub mean_of : List ℕ → Option Frac
unfolding total
mean_of [] = none
mean_of (x ∷ xs) = some (record { num = total (x ∷ xs); den = length (x ∷ xs) })

unfoldable pub nanmean : List (Option ℕ) → Option Frac
unfolding known mean_of
nanmean xs = mean_of (known xs)

-- `groups.setdefault(key, []).append(v)`.
unfoldable pub append_at :
    {K V : Type 0} ⦃e : Key K⦄ → K → V → List (K × List V) → List (K × List V)
append_at k v [] = (k, v ∷ []) ∷ []
append_at k v ((j, vs) ∷ groups) =
    let rest = append_at k v groups in if j == k then (j, vs ++ v ∷ []) ∷ groups else (j, vs) ∷ rest

-- A row that is grouped, with its key and its value, or one that is skipped.
unfoldable pub group_into :
    {K V : Type 0} ⦃e : Key K⦄
    → (Row → Option (K × V))
    → List Row
    → List (K × List V)
    → List (K × List V)
unfolding append_at
group_into pick [] groups = groups
group_into pick (r ∷ rows) groups =
    let skipped = group_into pick rows groups in
    elim (pick r) [
      | none ↦ skipped
      | some kv ↦ group_into pick rows (append_at (kv.0) (kv.1) groups)
    ]

abbrev pub size_bin : ℕ
size_bin = 2500

-- The bin of a row and its pair of recalls.
unfoldable pub size_entry : Row → Option (ℕ × (ℕ × Option ℕ))
size_entry r = if not (r.reachable) then none else elim (r.n_local) [
  | none ↦ none
  | some n ↦ elim (r.e2e_recall) [ none ↦ none | some e ↦ some (n / size_bin, (e, r.index_recall)) ]
]

pub record SizeBin : Type 0 where
  pub bin : ℕ
  pub e2e : Option Frac
  pub index : Option Frac
  pub count : ℕ

unfoldable pub size_bins : List (ℕ × List (ℕ × Option ℕ)) → List SizeBin
unfolding mean_of nanmean
size_bins [] = []
size_bins ((b, vals) ∷ groups) =
    record {
      bin = b;
      e2e = mean_of (map (λ v. v.0) vals);
      index = nanmean (map (λ v. v.1) vals);
      count = length vals;
    }
    ∷ size_bins groups

-- `_recall_by_size`.
unfoldable pub recall_by_size : List Row → List SizeBin
unfolding size_entry group_into size_bins
recall_by_size rows = size_bins (group_into size_entry rows [])

pub pair_iff : (a b : String × String) → ((a.0 == b.0 && a.1 == b.1) ≡ true) ↔ (a ≡ b)
pair_iff a b =
    let first = string_key.same_iff a.0 b.0 in
    let second = string_key.same_iff a.1 b.1 in
    (
      λ h. ap₂ (λ x y. (x, y)) (first.0 (ground arith)) (second.0 (ground arith)),
      λ q. ground (arith, first.1 (ap (λ p. p.0) q), second.1 (ap (λ p. p.1) q)),
    )

-- The instant and the shard of a row.
instance abbrev pub instant_key : Key (String × String)
instant_key = record { same = λ a b. a.0 == b.0 && a.1 == b.1; same_iff = pair_iff }

unfoldable pub e2e_entry : Row → Option ((String × String) × ℕ)
e2e_entry r =
    if not (r.reachable)
    then none
    else elim (r.e2e_recall) [ none ↦ none | some v ↦ some ((r.t_text, r.shard), v) ]

unfoldable pub list_min : ℕ → List ℕ → ℕ
list_min x [] = x
list_min x (y ∷ ys) = list_min (min x y) ys

unfoldable pub list_max : ℕ → List ℕ → ℕ
list_max x [] = x
list_max x (y ∷ ys) = list_max (max x y) ys

pub record Spread : Type 0 where
  pub spread : ℕ
  pub lowest : ℕ
  pub highest : ℕ

unfoldable pub spreads_of : List ((String × String) × List ℕ) → List Spread
unfolding list_min list_max
spreads_of [] = []
spreads_of ((k, []) ∷ groups) = spreads_of groups
spreads_of ((k, x ∷ []) ∷ groups) = spreads_of groups
spreads_of ((k, x ∷ y ∷ vals) ∷ groups) =
    let lowest = list_min x (y ∷ vals) in
    let highest = list_max x (y ∷ vals) in
    record { spread = highest - lowest; lowest = lowest; highest = highest } ∷ spreads_of groups

-- `_intra_shard_spreads`.
unfoldable pub intra_shard_spreads : List Row → List Spread
unfolding e2e_entry group_into spreads_of
intra_shard_spreads rows = spreads_of (group_into e2e_entry rows [])
