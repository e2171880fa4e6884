-- ===== src/Sample.antt =====
-- research/replica_recall/run_experiment.py, `sample_once` and `sampler_loop`: one sweep over the
-- replicas, scored by what `Metrics` and `Search` compute, and the loop that repeats it. What a
-- replica answers is an argument; the columns of clock readings are left out. An empty cell is NaN.
pub mod Groups
pub mod Collected
pub mod Scored
pub mod Swept
pub mod Sampled
pub mod Tests
use nano_db.Common.{
  ℕ, suc, ◌*◌, List, [], ◌∷◌, ◌++◌, map, Bool, true, false, not, ◌&&◌, Option, none, some,
  if◌then◌else◌, length, take, ltb, leb, ◌==◌, nat_key, string_key, string_ord, String,
}
use nano_db.Common.Sets.{select, to_set, inter}
use nano_db.Common.Sort.{sort}
use nano_db.Common.Frac.{Float, nan, Exception, Result, ok, raise, ◌>>=◌}
use nano_db.Metrics.{pairwise_agreement, leave_one_out_agreement}
use nano_db.Search.{Numpy, Matrix, Corpus, Scores, rows_for, score_replica}
use nano_db.Retain.{put}
use nano_db.Analyze.{append_at}

pub record Probe : Type 0 where
  pub name : String
  pub shard_id : ℕ
  pub replica_id : ℕ

-- What a replica answers: `list_local_ids`, and `search_batch` for queries and a number of results.
pub record Served : Type 0 where
  pub ok_ids : Bool
  pub ids : List String
  pub ok_search : Matrix → ℕ → Bool
  pub found : Matrix → ℕ → List (List String)

pub record Raw : Type 0 where
  pub probe : Probe
  pub reachable : Bool
  pub local : List String
  pub obs : List (List String)
  pub loo_obs : List (List String)

pub record SampleRow : Type 0 where
  pub shard : ℕ
  pub replica : ℕ
  pub name : String
  pub reachable : Bool
  pub index_recall : Float
  pub e2e_recall : Float
  pub completeness : Float
  pub n_local : Option ℕ
  pub n_intended : ℕ
  pub shard_agreement : Float
  pub loo_agreement : Float
  pub n_confirmed_settled : ℕ

-- Whether the round trips for the other query set, if there is one, succeeded.
abbrev pub loo_ok : Served → Option Matrix → ℕ → Bool
loo_ok s none k = true
loo_ok s (some loo_queries) k = s.ok_ids && s.ok_search loo_queries k

abbrev pub loo_found : Served → Option Matrix → ℕ → List (List String)
loo_found s none k = []
loo_found s (some loo_queries) k = if s.ok_ids then s.found loo_queries k else []

unfoldable pub probe_one : Matrix → Option Matrix → ℕ → Probe → Served → Raw
probe_one queries loo_queries k p s =
    let k_fetch = k * 3 in
    record {
      probe = p;
      reachable = s.ok_ids && (s.ok_ids && s.ok_search queries k_fetch) && loo_ok s loo_queries k;
      local = s.ids;
      obs = if s.ok_ids then s.found queries k_fetch else [];
      loo_obs = loo_found s loo_queries k;
    }

-- `raw`, by name.
unfoldable pub collect :
    Matrix
    → Option Matrix
    → ℕ
    → (String → Served)
    → List (Probe)
    → List (String × Raw)
    → List (String × Raw)
unfolding probe_one put
collect queries loo_queries k serve [] raw = raw
collect queries loo_queries k serve (p ∷ probes) raw =
    collect queries loo_queries k serve probes
      (put p.name (probe_one queries loo_queries k p (serve p.name)) raw)

abbrev pub Entries : Type 0
Entries = List (String × Raw)

-- `by_shard`, with the entry of a name beside it.
unfoldable pub by_shard : Entries → List (ℕ × Entries) → List (ℕ × Entries)
by_shard [] groups = groups
by_shard (x ∷ raw) groups = by_shard raw (append_at x.1.probe.shard_id x groups)

abbrev pub live_of : Entries → Entries
live_of names = select (λ x. x.1.reachable) names

unfoldable pub union_of : Entries → List String
union_of [] = []
union_of (x ∷ live) = to_set (x.1.local ++ union_of live)

-- The answers that a client would receive.
abbrev pub observed_of : Bool → ℕ → Entries → List (String × List (List String))
observed_of with_loo k live =
    map (λ x. (x.0, map (take k) (if with_loo then x.1.loo_obs else x.1.obs))) live

abbrev pub agreement_of : Bool → ℕ → Entries → Result Float
agreement_of with_loo k live =
    if ltb (length live) 2 then ok nan else pairwise_agreement (observed_of with_loo k live) k

abbrev pub loo_of : Bool → ℕ → Entries → Result (List (String × Float))
loo_of with_loo k live =
    if ltb (length live) 3 then ok [] else leave_one_out_agreement (observed_of with_loo k live) k

-- `loo.get(n, float("nan"))`.
abbrev pub get_score : String → List (String × Float) → Float
get_score n [] = nan
get_score n ((m, x) ∷ loo) = if n == m then x else get_score n loo

abbrev pub unreachable_row : ℕ → ℕ → ℕ → Float → String → Raw → SampleRow
unreachable_row shard_id n_intended n_settled agreement n r = record {
  shard = shard_id;
  replica = r.probe.replica_id;
  name = n;
  reachable = false;
  index_recall = nan;
  e2e_recall = nan;
  completeness = nan;
  n_local = none;
  n_intended = n_intended;
  shard_agreement = agreement;
  loo_agreement = nan;
  n_confirmed_settled = n_settled;
}

abbrev pub scored_row : ℕ → ℕ → Float → List (String × Float) → String → Raw → Scores → SampleRow
scored_row shard_id n_settled agreement loo n r m = record {
  shard = shard_id;
  replica = r.probe.replica_id;
  name = n;
  reachable = true;
  index_recall = m.index_recall;
  e2e_recall = m.e2e_recall;
  completeness = m.completeness;
  n_local = some m.n_local;
  n_intended = m.n_intended;
  shard_agreement = agreement;
  loo_agreement = get_score n loo;
  n_confirmed_settled = n_settled;
}

module _ (np : Numpy) (queries : Matrix) (corpus : Corpus String) (k : ℕ) (metric : String)
    (with_loo : Bool) (intended_all : List String) where
  unfoldable pub row_for :
      ℕ → List String → Float → List (String × Float) → (String × Raw) → Result SampleRow
  row_for shard_id intended_s agreement loo (n, r) =
      if not r.reachable
      then ok (unreachable_row shard_id (length intended_s) (length intended_all) agreement n r)
      else (do
        m ←
            score_replica np queries r.obs corpus k metric r.local intended_s
              (some (rows_for corpus intended_s))
        ok (scored_row shard_id (length intended_all) agreement loo n r m))

  unfoldable pub rows_of_names :
      ℕ → List String → Float → List (String × Float) → Entries → Result (List SampleRow)
  unfolding row_for
  rows_of_names shard_id intended_s agreement loo [] = ok []
  rows_of_names shard_id intended_s agreement loo (x ∷ names) = do
    row ← row_for shard_id intended_s agreement loo x
    rows ← rows_of_names shard_id intended_s agreement loo names
    ok (row ∷ rows)

  unfoldable pub rows_of_shard : (ℕ × Entries) → Result (List SampleRow)
  unfolding rows_of_names union_of
  rows_of_shard (shard_id, names) =
      let live = live_of names in
      let intended_s = inter (union_of live) intended_all in
      do
        agreement ← agreement_of with_loo k live
        loo ← loo_of with_loo k live
        rows_of_names shard_id intended_s agreement loo names

  unfoldable pub rows_of_shards : List (ℕ × Entries) → Result (List SampleRow)
  unfolding rows_of_shard
  rows_of_shards [] = ok []
  rows_of_shards (g ∷ groups) = do
    here ← rows_of_shard g
    rest ← rows_of_shards groups
    ok (here ++ rest)

  -- Phase 2 of a sweep, over what phase 1 collected.
  unfoldable pub score_raw : Entries → Result (List SampleRow)
  unfolding rows_of_shards by_shard
  score_raw raw = rows_of_shards (sort (λ g h. leb g.0 h.0) (by_shard raw []))

abbrev pub has_loo : Option Matrix → Bool
has_loo none = false
has_loo (some loo_queries) = true

-- `intended_all` and `corpus` are what the writer answers when the sweep begins.
unfoldable pub sample_once :
    Numpy
    → Matrix
    → Corpus String
    → ℕ
    → String
    → Option Matrix
    → List String
    → (String → Served)
    → List (Probe)
    → Result (List SampleRow)
unfolding score_raw collect
sample_once np queries corpus k metric loo_queries intended_all serve probes =
    score_raw np queries corpus k metric (has_loo loo_queries) intended_all
      (collect queries loo_queries k serve probes [])

-- A round of the sampler: what the writer and the replicas answer in it.
pub record Round : Type 0 where
  pub corpus : Corpus String
  pub intended_all : List String
  pub loo_queries : Option Matrix
  pub serve : String → Served

pub record Samples : Type 0 where
  pub rows_out : List SampleRow
  pub errors_out : List Exception

abbrev pub record_sweep : Samples → Result (List SampleRow) → Samples
record_sweep s (ok rows) = record s { rows_out = s.rows_out ++ rows }
record_sweep s (raise e) = record s { errors_out = s.errors_out ++ (e ∷ []) }

-- The rounds up to the stop event: an exception is recorded and does not end the loop.
unfoldable pub sampler_loop :
    Numpy → Matrix → ℕ → String → List Probe → List Round → Samples → Samples
unfolding sample_once
sampler_loop np queries k metric probes [] s = s
sampler_loop np queries k metric probes (r ∷ rounds) s =
    sampler_loop np queries k metric probes rounds (
      record_sweep s
        (sample_once np queries r.corpus k metric r.loo_queries r.intended_all r.serve probes))
