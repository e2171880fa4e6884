-- ===== src/Sample/Scored.antt =====
-- The rows of a shard in a sweep of research/replica_recall/run_experiment.py, `sample_once`, reports.
use nano_db.Common.{
  ℕ, suc, ◌≡◌, refl, ap, List, [], ◌∷◌, ◌++◌, Bool, false, arith, length, ltb, All, Bool-cases, inl,
  inr, ◌==◌, nat_key, string_key, string_ord, String,
}
use nano_db.Common.Sets.{count_if, IsUnique, to_set-IsUnique}
use nano_db.Common.Frac.{Float, nan, IsScore, ok}
use nano_db.Metrics.Replicas.{pairwise_agreement_lem, leave_one_out_agreement-IsScore}
use nano_db.Search.{Numpy, IsNumpy, Matrix, Corpus, score_replica}
use nano_db.Search.Rows.{IsCorpus}
use nano_db.Search.Batch.{IsMetric, Fit}
use nano_db.Search.Replica.{score_replica_lem}
use nano_db.Sample.{
  Entries, Raw, SampleRow, union_of, observed_of, agreement_of, loo_of, get_score, row_for,
  rows_of_names, unreachable_row, scored_row,
}
use nano_db.Sample.Collected.{HasSet}

-- A row whose scores are empty or in [0, 1], all of the replica's own empty if it was not reached.
pub record IsScored (r : SampleRow) : Type 0 where
  pub index_recall : IsScore r.index_recall
  pub e2e_recall : IsScore r.e2e_recall
  pub completeness : IsScore r.completeness
  pub shard_agreement : IsScore r.shard_agreement
  pub loo_agreement : IsScore r.loo_agreement
  pub silent :
      r.reachable ≡ false
      → (r.index_recall ≡ nan)
        × (r.e2e_recall ≡ nan)
        × (r.completeness ≡ nan)
        × (r.loo_agreement ≡ nan)

-- Rows for the entries: as many for each name as there are entries, and each of them scored.
pub record AreRowsOf (entries : (String → Bool) → ℕ) (rows : List SampleRow) : Type 0 where
  pub one_each : (p : String → Bool) → count_if (λ (r : SampleRow). p r.name) rows ≡ entries p
  pub scored : All IsScored rows

get_score-IsScore :
    (n : String) (loo : List (String × Float))
    → All (λ x. IsScore x.1) loo
    → IsScore (get_score n loo)
get_score-IsScore n [] h = tt
get_score-IsScore n ((m, x) ∷ loo) h = elim (Bool-cases (n == m)) [
  | inl same ↦ rw same h.0
  | inr other ↦ rw other (get_score-IsScore n loo h.1)
]

pub agreement_of-IsScore :
    (with_loo : Bool) (k : ℕ) (live : Entries)
    → (f : Float) × (agreement_of with_loo k live ≡ ok f) × IsScore f
agreement_of-IsScore with_loo k live = elim (Bool-cases (ltb (length live) 2)) [
  | inl few ↦ (nan, rw few refl, tt)
  | inr enough ↦
      let r = pairwise_agreement_lem (observed_of with_loo k live) k in (r.0, rw enough r.1, r.2)
]

pub loo_of-IsScore :
    (with_loo : Bool) (k : ℕ) (live : Entries)
    → (loo : List (String × Float)) × (loo_of with_loo k live ≡ ok loo) × All (λ x. IsScore x.1) loo
loo_of-IsScore with_loo k live = elim (Bool-cases (ltb (length live) 3)) [
  | inl few ↦ ([], rw few refl, tt)
  | inr enough ↦
      let r = leave_one_out_agreement-IsScore (observed_of with_loo k live) k in
      (r.0, rw enough r.1, r.2)
]

pub union_of-IsUnique : (live : Entries) → IsUnique (union_of live)
unfolding union_of
union_of-IsUnique [] = tt
union_of-IsUnique (x ∷ live) = to_set-IsUnique (x.1.local ++ union_of live)

module _ (np : Numpy) (queries : Matrix) (corpus : Corpus String) (k : ℕ) (metric : String)
    (with_loo : Bool) (intended_all : List String) (laws : IsNumpy np) (valid : IsCorpus corpus)
    (known : IsMetric metric) (fit : Fit queries corpus.mat) where
  row_for-IsScored :
      (shard_id : ℕ) (intended_s : List String) (agreement : Float) (loo : List (String × Float))
      (n : String) (r : Raw)
      → IsUnique intended_s
      → IsScore agreement
      → All (λ x. IsScore x.1) loo
      → HasSet r
      → (row : SampleRow) × (row_for np queries corpus
            (suc k)
            metric
            with_loo
            intended_all
            shard_id
            intended_s
            agreement
            loo
            (n, r)
          ≡ ok row)
        × (row.name ≡ n)
        × IsScored row
  unfolding row_for score_replica
  row_for-IsScored shard_id intended_s agreement loo n r u fine fines set =
      elim (Bool-cases r.reachable) [
        | inr lost ↦ (
          unreachable_row shard_id (length intended_s) (length intended_all) agreement n r,
          rw (row_for, lost) refl,
          refl,
          record {
            index_recall = tt;
            e2e_recall = tt;
            completeness = tt;
            shard_agreement = fine;
            loo_agreement = tt;
            silent = λ _. (refl, refl, refl, refl);
          },
        )
        | inl here ↦
            let s =
              score_replica_lem np queries r.obs corpus k metric r.local intended_s laws valid known
                fit set u in
            (
              scored_row shard_id (length intended_all) agreement loo n r s.0,
              rw (row_for, here, s.1) refl,
              refl,
              record {
                index_recall = s.2;
                e2e_recall = s.3;
                completeness = s.4;
                shard_agreement = fine;
                loo_agreement = get_score-IsScore n loo fines;
                silent = λ h. absurd (cc);
              },
            )
      ]

  pub rows_of_names-AreRows :
      (shard_id : ℕ) (intended_s : List String) (agreement : Float) (loo : List (String × Float))
      (names : Entries)
      → IsUnique intended_s
      → IsScore agreement
      → All (λ x. IsScore x.1) loo
      → All (λ x. HasSet x.1) names
      → (rows : List SampleRow) × (rows_of_names np queries corpus
            (suc k)
            metric
            with_loo
            intended_all
            shard_id
            intended_s
            agreement
            loo
            names
          ≡ ok rows)
        × AreRowsOf (λ p. count_if (λ x. p x.0) names) rows
  unfolding rows_of_names
  rows_of_names-AreRows shard_id intended_s agreement loo [] u fine fines sets =
      ([], refl, record { one_each = λ p. refl; scored = tt })
  rows_of_names-AreRows shard_id intended_s agreement loo ((n, r) ∷ names) u fine fines sets =
      let one = row_for-IsScored shard_id intended_s agreement loo n r u fine fines sets.0 in
      let rest =
        rows_of_names-AreRows shard_id intended_s agreement loo names u fine fines sets.1 in
      (
        one.0 ∷ rest.0,
        rw (one.1, rest.1) refl,
        record {
          one_each = λ p. ground (arith, rest.2.one_each p, ap p one.2);
          scored = (one.3, rest.2.scored);
        },
      )
