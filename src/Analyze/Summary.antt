-- ===== src/Analyze/Summary.antt =====
-- `summarize_run` of research/replica_recall/analyze.py: the row of numbers of a run.
use nano_db.Common.{
  ℕ, List, [], ◌∷◌, map, not, Option, none, some, if◌then◌else◌, length, nat_key, string_key,
}
use nano_db.Common.Frac.{Frac}
use nano_db.Common.Sets.{count_if}
use nano_db.Analyze.{Row, mean_of, nanmean, intra_shard_spreads, SizeBin, recall_by_size}
use nano_db.Analyze.Detection.{Detection, detection_stats, resolution_eps, MetaInt}

unfoldable pub reachable_cells : (Row → Option ℕ) → List Row → List (Option ℕ)
reachable_cells f [] = []
reachable_cells f (r ∷ rows) =
    let rest = reachable_cells f rows in if not (r.reachable) then rest else f r ∷ rest

-- The row of numbers of a run; P is the type of numpy's percentile.
pub record Summary (P C : Type 0) : Type 0 where
  pub spread_mean : Option Frac
  pub spread_p95 : Option P
  pub index_recall : Option Frac
  pub completeness : Option Frac
  pub e2e_recall : Option Frac
  pub hit_rate : Option Frac
  pub rank_corr : Option C
  pub margin : Option Frac
  pub chance : Option Frac
  pub tied_excluded : ℕ
  pub detector_groups : ℕ
  pub unreachable_frac : Option Frac
  pub by_size : List SizeBin

-- `det.get(key, default)` for a missing result.
unfoldable pub get_from : {C A : Type 0} → (Detection C → A) → A → Option (Detection C) → A
get_from f default none = default
get_from f default (some d) = f d

-- `unreach / total if total else nan`.
unfoldable pub unreachable_of : List Row → Option Frac
unreachable_of [] = none
unreachable_of (r ∷ rows) =
    some (record { num = count_if (λ x. not (x.reachable)) (r ∷ rows); den = length (r ∷ rows) })

module _ {P C : Type 0} (percentile_95 : List ℕ → P) (corr : List ℕ → List ℕ → C)
    (mean_corr : List C → C) where
  unfoldable pub p95_if_any : List ℕ → Option P
  p95_if_any [] = none
  p95_if_any (x ∷ xs) = some (percentile_95 (x ∷ xs))

  -- `summarize_run`.
  unfoldable pub summarize_run : List Row → MetaInt → MetaInt → Summary P C
  unfolding intra_shard_spreads detection_stats resolution_eps recall_by_size mean_of nanmean
      reachable_cells get_from unreachable_of p95_if_any
  summarize_run rows k queries =
      let spreads = map (λ s. s.spread) (intra_shard_spreads rows) in
      let det = detection_stats corr mean_corr rows (resolution_eps k queries) in
      record {
        spread_mean = mean_of spreads;
        spread_p95 = p95_if_any spreads;
        index_recall = nanmean (reachable_cells (λ r. r.index_recall) rows);
        completeness = nanmean (reachable_cells (λ r. r.completeness) rows);
        e2e_recall = nanmean (reachable_cells (λ r. r.e2e_recall) rows);
        hit_rate = get_from (λ d. d.hit_rate) none det;
        rank_corr = get_from (λ d. d.rank_corr) none det;
        margin = get_from (λ d. d.margin) none det;
        chance = get_from (λ d. d.chance) none det;
        tied_excluded = get_from (λ d. d.tied_excluded) 0 det;
        detector_groups = get_from (λ d. d.groups) 0 det;
        unreachable_frac = unreachable_of rows;
        by_size = recall_by_size rows;
      }
