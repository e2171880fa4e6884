-- ===== src/Sample/Swept.antt =====
-- What a sweep of research/replica_recall/run_experiment.py, `sample_once`, reports.
use nano_db.Common.{
  ℕ, suc, ◌≡◌, refl, ◌∙◌, List, [], ◌∷◌, ◌++◌, map, Bool, arith, leb, All, nat_key, string_key,
  string_ord, String, Option,
}
use nano_db.Common.Sets.{count_if, count_if-append, IsUnique, inter, select-IsUnique, contains}
use nano_db.Common.Sort.{sort}
use nano_db.Common.Frac.{ok}
use nano_db.Search.{Numpy, IsNumpy, Matrix, Corpus}
use nano_db.Search.Rows.{IsCorpus}
use nano_db.Search.Batch.{IsMetric, Fit}
use nano_db.Sample.{
  Entries, Probe, Served, SampleRow, by_shard, collect, live_of, union_of, rows_of_shard,
  rows_of_shards, score_raw, has_loo, sample_once,
}
use nano_db.Sample.Groups.{count_groups, AllGroups, count_groups-raw, raw-AllGroups}
use nano_db.Sample.Collected.{HasSet, collect-HasSet, count_if-collect_all}
use nano_db.Sample.Scored.{
  IsScored, AreRowsOf, agreement_of-IsScore, loo_of-IsScore, union_of-IsUnique,
  rows_of_names-AreRows,
}

pub All-append :
    (xs ys : List SampleRow) → All IsScored xs → All IsScored ys → All IsScored (xs ++ ys)
All-append [] ys h k = k
All-append (x ∷ xs) ys h k = (h.0, All-append xs ys h.1 k)

module _ (np : Numpy) (queries : Matrix) (corpus : Corpus String) (k : ℕ) (metric : String)
    (with_loo : Bool) (intended_all : List String) (laws : IsNumpy np) (valid : IsCorpus corpus)
    (known : IsMetric metric) (fit : Fit queries corpus.mat) where
  rows_of_shard-AreRows :
      (shard_id : ℕ) (names : Entries)
      → All (λ x. HasSet x.1) names
      → (rows : List SampleRow) × (rows_of_shard np queries corpus
            (suc k)
            metric
            with_loo
            intended_all
            (shard_id, names)
          ≡ ok rows)
        × AreRowsOf (λ p. count_if (λ x. p x.0) names) rows
  unfolding rows_of_shard
  rows_of_shard-AreRows shard_id names sets =
      let live = live_of names in
      let intended_s = inter (union_of live) intended_all in
      let unique =
        select-IsUnique (λ x. contains x intended_all) (union_of live) (union_of-IsUnique live) in
      let agreement = agreement_of-IsScore with_loo (suc k) live in
      let loo = loo_of-IsScore with_loo (suc k) live in
      let rows =
        rows_of_names-AreRows np queries corpus k metric with_loo intended_all laws valid known fit
          shard_id intended_s agreement.0 loo.0 names unique agreement.2 loo.2 sets in
      (rows.0, rw (agreement.1, loo.1) rows.1, rows.2)

  rows_of_shards-AreRows :
      (groups : List (ℕ × Entries))
      → AllGroups HasSet groups
      → (rows : List SampleRow) × (rows_of_shards np queries corpus
            (suc k)
            metric
            with_loo
            intended_all
            groups
          ≡ ok rows)
        × AreRowsOf (λ p. count_groups p groups) rows
  unfolding rows_of_shards
  rows_of_shards-AreRows [] sets = ([], refl, record { one_each = λ p. refl; scored = tt })
  rows_of_shards-AreRows ((shard_id, names) ∷ groups) sets =
      let here = rows_of_shard-AreRows shard_id names sets.0 in
      let rest = rows_of_shards-AreRows groups sets.1 in
      (
        here.0 ++ rest.0,
        rw (here.1, rest.1) refl,
        record {
          one_each = λ p. omega (
            arith,
            count_if-append (λ (r : SampleRow). p r.name) here.0 rest.0,
            here.2.one_each p,
            rest.2.one_each p,
          );
          scored = All-append here.0 rest.0 here.2.scored rest.2.scored;
        },
      )

  score_raw-AreRows :
      (raw : Entries)
      → All (λ x. HasSet x.1) raw
      → (rows : List SampleRow) × (score_raw np queries corpus
            (suc k)
            metric
            with_loo
            intended_all
            raw
          ≡ ok rows)
        × AreRowsOf (λ p. count_if (λ x. p x.0) raw) rows
  unfolding score_raw
  score_raw-AreRows raw sets =
      let le = λ (g h : ℕ × Entries). leb g.0 h.0 in
      let rows =
        rows_of_shards-AreRows (sort le (by_shard raw [])) (raw-AllGroups HasSet le raw sets) in
      (
        rows.0,
        rows.1,
        record {
          one_each = λ p. rows.2.one_each p ∙ count_groups-raw p le raw;
          scored = rows.2.scored;
        },
      )

-- A sweep over replicas with distinct names raises nothing for a valid snapshot whose vectors have the
-- dimension of the queries, a positive k and a known metric, whatever the replicas answer with sets of ids. It has exactly one row for each
-- replica, and each score of a row is empty or in [0, 1], those of a replica that was not reached
-- all empty.
pub sample_once_lem :
    (np : Numpy) (queries : Matrix) (corpus : Corpus String) (k : ℕ) (metric : String)
    (loo_queries : Option Matrix) (intended_all : List String) (serve : String → Served)
    (probes : List Probe)
    → IsNumpy np
    → IsCorpus corpus
    → IsMetric metric
    → Fit queries corpus.mat
    → ((n : String) → IsUnique (serve n).ids)
    → IsUnique (map (λ (q : Probe). q.name) probes)
    → (rows : List SampleRow) × (sample_once np queries corpus
          (suc k)
          metric
          loo_queries
          intended_all
          serve
          probes
        ≡ ok rows)
      × AreRowsOf (λ p. count_if (λ (q : Probe). p q.name) probes) rows
unfolding sample_once
sample_once_lem np queries corpus k metric loo_queries intended_all serve probes laws valid known
      fit sets u =
    let r =
      score_raw-AreRows np queries corpus k metric (has_loo loo_queries) intended_all laws valid
        known fit (collect queries loo_queries (suc k) serve probes [])
        (collect-HasSet queries loo_queries (suc k) serve probes [] sets tt) in
    (
      r.0,
      r.1,
      record {
        one_each =
            λ p. r.2.one_each p ∙ count_if-collect_all p queries loo_queries (suc k) serve probes u;
        scored = r.2.scored;
      },
    )
