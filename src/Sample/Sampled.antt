-- ===== src/Sample/Sampled.antt =====
-- What the rounds of `sampler_loop` of research/replica_recall/run_experiment.py add up to.
use nano_db.Common.{
  ℕ, suc, ◌+◌, ◌*◌, ◌≡◌, refl, List, [], ◌∷◌, ◌++◌, map, Bool, arith, length, All, String,
  string_key, nat_key,
}
use nano_db.Common.Sets.{count_if, count_if-append, IsUnique}
use nano_db.Search.{Numpy, IsNumpy, Matrix}
use nano_db.Search.Rows.{IsCorpus}
use nano_db.Search.Batch.{IsMetric, Fit}
use nano_db.Sample.{Probe, SampleRow, Round, Samples, sampler_loop}
use nano_db.Sample.Scored.{IsScored}
use nano_db.Sample.Swept.{sample_once_lem, All-append}

-- A round whose snapshot is valid, with vectors of the dimension of the queries, and whose replicas answer with sets of ids.
pub record IsValidRound (queries : Matrix) (r : Round) : Type 0 where
  pub valid : IsCorpus r.corpus
  pub fit : Fit queries r.corpus.mat
  pub sets : (n : String) → IsUnique (r.serve n).ids

-- What rounds have added to the samples.
pub record HasSampled (probes : List Probe) (n : ℕ) (s t : Samples) : Type 0 where
  pub no_errors : t.errors_out ≡ s.errors_out
  pub one_each_round :
      (p : String → Bool)
      → count_if (λ (r : SampleRow). p r.name) t.rows_out
        ≡ count_if (λ (r : SampleRow). p r.name) s.rows_out
          + n * count_if (λ (q : Probe). p q.name) probes
  pub scored : All IsScored t.rows_out

step_count : (n c a b t : ℕ) → b ≡ a + c → t ≡ b + n * c → t ≡ a + suc n * c
step_count n c a b t h k = grind arith

zero_count : (a c : ℕ) → a ≡ a + 0 * c
zero_count a c = grind arith

-- Over rounds with a valid snapshot of the queries' dimension and sets of ids, for distinct replicas, a positive k and a known
-- metric, the sampler records no error, adds exactly one row per replica and round, and keeps
-- every score empty or in [0, 1].
pub sampler_loop_lem :
    (np : Numpy) (queries : Matrix) (k : ℕ) (metric : String) (probes : List Probe)
    (rounds : List Round) (s : Samples)
    → IsNumpy np
    → IsMetric metric
    → IsUnique (map (λ (q : Probe). q.name) probes)
    → All (IsValidRound queries) rounds
    → All IsScored s.rows_out
    → HasSampled probes (length rounds) s (sampler_loop np queries (suc k) metric probes rounds s)
unfolding sampler_loop
sampler_loop_lem np queries k metric probes [] s laws known u valid scored = record {
  no_errors = refl;
  one_each_round = λ p. zero_count _ _;
  scored = scored;
}
sampler_loop_lem np queries k metric probes (r ∷ rounds) s laws known u valid scored =
    let sweep =
      sample_once_lem np queries r.corpus k metric r.loo_queries r.intended_all r.serve probes laws
        valid.0.valid known valid.0.fit valid.0.sets u in
    let s' : Samples = record s { rows_out = s.rows_out ++ sweep.0 } in
    let rest =
      sampler_loop_lem np queries k metric probes rounds s' laws known u valid.1
        (All-append s.rows_out sweep.0 scored sweep.2.scored) in
    rw sweep.1 (record {
      no_errors = rest.no_errors;
      one_each_round = λ p.
          step_count (length rounds) _ _ _ _
            (omega (
              arith,
              count_if-append (λ (x : SampleRow). p x.name) s.rows_out sweep.0,
              sweep.2.one_each p,
            ))
            (rest.one_each_round p);
      scored = rest.scored;
    })
