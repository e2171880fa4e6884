-- ===== src/Analyze/Report.antt =====
-- The reports of research/replica_recall/analyze.py that end in a judgement: QS, Q1, Q3, Q4, QH.
-- What they print is given as values.
use nano_db.Common.{
  take, ℕ, ◌+◌, ◌*◌, List, [], ◌∷◌, ◌++◌, map, Bool, true, false, not, ◌&&◌, Option, none, some,
  if◌then◌else◌, length, ltb, leb, eqb, max, nat_key, string_key,
}
use nano_db.Common.Frac.{Frac}
use nano_db.Common.Sort.{sort}
use nano_db.Common.Sets.{to_set}
use nano_db.Analyze.{Row, mean_of, nanmean, Spread, intra_shard_spreads, SizeBin, recall_by_size}
use nano_db.Analyze.Detection.{Detection, detection_stats, resolution_eps, MetaInt}
use nano_db.Analyze.Heal.{Meta, HealStats, SignedFrac, minus, heal_stats}

-- The means of a bin in a table.
unfoldable pub find_bin : ℕ → List SizeBin → Option Frac
find_bin b [] = none
find_bin b (x ∷ bins) = let rest = find_bin b bins in if eqb x.bin b then x.e2e else rest

-- The differences in the bins that both tables have; a mean that is there is not NaN.
unfoldable pub deltas : List ℕ → List SizeBin → List SizeBin → List SignedFrac
unfolding find_bin minus
deltas [] a b = []
deltas (k ∷ ks) a b =
    let rest = deltas ks a b in
    elim (find_bin k a) [
      | none ↦ rest
      | some ea ↦ elim (find_bin k b) [ none ↦ rest | some eb ↦ minus ea eb ∷ rest ]
    ]

-- `qsize_recall_vs_index_size` for two runs: nothing without a scored sample of the first, else
-- the differences over the sorted bins of both.
unfoldable pub qsize_recall_vs_index_size : List Row → List Row → Option (List SignedFrac)
unfolding recall_by_size deltas sort
qsize_recall_vs_index_size rows compare_rows =
    let a = recall_by_size rows in
    let b = recall_by_size compare_rows in
    if eqb (length a) 0
    then none
    else some (deltas (sort leb (to_set (map (λ x. x.bin) a ++ map (λ x. x.bin) b))) a b)

-- The figures of Q1.
pub record SpreadReport (P : Type 0) : Type 0 where
  pub instants : ℕ
  pub mean_spread : Option Frac
  pub p95_spread : P
  pub max_spread : ℕ
  pub worst_mean : Option Frac
  pub best_mean : Option Frac

unfoldable pub largest : List ℕ → ℕ
largest [] = 0
largest (x ∷ xs) = max x (largest xs)

module _ {P : Type 0} (percentile_95 : List ℕ → P) where
  unfoldable pub spread_report : List Spread → Option (SpreadReport P)
  unfolding mean_of largest
  spread_report [] = none
  spread_report (s ∷ ss) =
      let spreads = map (λ x. x.spread) (s ∷ ss) in
      some (record {
        instants = length spreads;
        mean_spread = mean_of spreads;
        p95_spread = percentile_95 spreads;
        max_spread = largest spreads;
        worst_mean = mean_of (map (λ x. x.lowest) (s ∷ ss));
        best_mean = mean_of (map (λ x. x.highest) (s ∷ ss));
      })

  -- `q1_intra_shard_spread`.
  unfoldable pub q1_intra_shard_spread : List Row → Option (SpreadReport P)
  unfolding intra_shard_spreads spread_report
  q1_intra_shard_spread rows = spread_report (intra_shard_spreads rows)

pub data Cause : Type 0 where
  graph_degraded data_missing both_or_neither : Cause

-- The verdict of `q3_graph_vs_data` on a sample; 0.05 is 50000 millionths.
unfoldable pub cause_of : ℕ → ℕ → Cause
cause_of i c =
    if ltb (i + 50000) c
    then graph_degraded
    else (if ltb (c + 50000) i then data_missing else both_or_neither)

-- The samples of `q3_graph_vs_data`.
unfoldable pub q3_samples : List Row → List (Option ℕ × (ℕ × ℕ))
q3_samples [] = []
q3_samples (r ∷ rows) =
    let rest = q3_samples rows in
    if not (r.reachable) then rest else elim (r.index_recall) [
      | none ↦ rest
      | some i ↦ elim (r.completeness) [ none ↦ rest | some c ↦ (r.e2e_recall, (i, c)) ∷ rest ]
    ]

-- NaN after the numbers.
unfoldable pub worse : Option ℕ × (ℕ × ℕ) → Option ℕ × (ℕ × ℕ) → Bool
worse (some a, x) (some b, y) = leb a b
worse (some a, x) (none, y) = true
worse (none, x) (some b, y) = false
worse (none, x) (none, y) = true

pub record CauseReport : Type 0 where
  pub samples : ℕ
  pub mean_index : Option Frac
  pub mean_completeness : Option Frac
  pub mean_e2e : Option Frac
  pub worst : List Cause

unfoldable pub cause_report : List (Option ℕ × (ℕ × ℕ)) → Option CauseReport
unfolding mean_of nanmean worse cause_of sort
cause_report [] = none
cause_report (s ∷ ss) = some (record {
  samples = length (s ∷ ss);
  mean_index = mean_of (map (λ x. x.1.0) (s ∷ ss));
  mean_completeness = mean_of (map (λ x. x.1.1) (s ∷ ss));
  mean_e2e = nanmean (map (λ x. x.0) (s ∷ ss));
  worst = map (λ x. cause_of x.1.0 x.1.1) (take 5 (sort worse (s ∷ ss)));
})

-- `q3_graph_vs_data`.
unfoldable pub q3_graph_vs_data : List Row → Option CauseReport
unfolding q3_samples cause_report
q3_graph_vs_data rows = cause_report (q3_samples rows)

pub data Answer : Type 0 where
  no_groups too_few detects partial_signal does_not_detect : Answer

-- The branches on the hit rate and on chance: `rate >= chance * 1.8 and rate >= 0.55`, and
-- `rate >= chance * 1.3`.
unfoldable pub answer_of : Frac → Frac → Answer
answer_of rate chance =
    let r = rate.num * chance.den * 10 in
    let c = chance.num * rate.den in
    if leb (c * 18) r && leb (rate.den * 55) (rate.num * 100)
    then detects
    else (if leb (c * 13) r then partial_signal else does_not_detect)

unfoldable pub answer_to : {C : Type 0} → Option (Detection C) → Answer
unfolding answer_of
answer_to none = no_groups
answer_to (some d) = elim (d.hit_rate) [
  | none ↦ too_few
  | some rate ↦ elim (d.chance) [ none ↦ too_few | some chance ↦ answer_of rate chance ]
]

module _ {C : Type 0} (corr : List ℕ → List ℕ → C) (mean_corr : List C → C) where
  -- `q4_can_we_spot_the_bad_replica`.
  unfoldable pub q4_can_we_spot_the_bad_replica : List Row → MetaInt → MetaInt → Answer
  unfolding detection_stats resolution_eps answer_to
  q4_can_we_spot_the_bad_replica rows k queries =
      answer_to (detection_stats corr mean_corr rows (resolution_eps k queries))

pub data HealAnswer : Type 0 where
  no_window cannot_judge heals does_not_heal : HealAnswer

-- `qheal_recovery`.
unfoldable pub heal_answer : Option HealStats → HealAnswer
heal_answer none = no_window
heal_answer (some h) = elim (h.recovery.healed) [
  | none ↦ cannot_judge
  | some healed ↦ if healed then heals else does_not_heal
]

unfoldable pub qheal_recovery : Meta → List Row → HealAnswer
unfolding heal_stats heal_answer
qheal_recovery meta rows = heal_answer (heal_stats meta rows)
