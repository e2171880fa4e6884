-- ===== src/Sample/Tests.antt =====
-- Three replicas of one shard, one of them out of reach, and a round of the sampler over them.
use nano_db.Common.{
  ℕ, ◌≡◌, refl, inl, inr, Bool-cases, List, [], ◌∷◌, map, true, false, none, some, String,
  string_key, string_ord, nat_key, ◌==◌, if◌then◌else◌,
}
use nano_db.Common.Int.{pos}
use nano_db.Common.Sets.{count_if, IsUnique}
use nano_db.Common.Frac.{ok}
use nano_db.Search.{Vector, Matrix, Corpus, from_dict}
use nano_db.Search.Rows.{IsCorpus, from_dict-IsCorpus}
use nano_db.Search.Batch.{Fit}
use nano_db.Search.Sorting.{sorting, sorting-IsNumpy}
use nano_db.Sample.{Probe, Served, SampleRow, Round, Samples, sample_once, sampler_loop, probe_one}
use nano_db.Sample.Scored.{AreRowsOf}
use nano_db.Sample.Swept.{sample_once_lem}
use nano_db.Sample.Sampled.{HasSampled, sampler_loop_lem}

abbrev vectors : List (String × Vector)
vectors = ("a", pos 0 ∷ []) ∷ ("b", pos 5 ∷ []) ∷ []

abbrev corpus : Corpus String
corpus = from_dict vectors

abbrev probe : String → ℕ → Probe
probe name r = record { name = name; shard_id = 0; replica_id = r }

abbrev probes : List Probe
probes = probe "r0" 0 ∷ probe "r1" 1 ∷ probe "r2" 2 ∷ []

abbrev serve : String → Served
serve name =
    if name == "r2"
    then record { ok_ids = false; ids = []; ok_search = λ q k. false; found = λ q k. [] }
    else record {
      ok_ids = true;
      ids = "a" ∷ "b" ∷ [];
      ok_search = λ q k. true;
      found = λ q k. ("a" ∷ "b" ∷ []) ∷ [];
    }

abbrev queries : Matrix
queries = (pos 1 ∷ []) ∷ []

serve-IsUnique : (n : String) → IsUnique (serve n).ids
serve-IsUnique n = elim (Bool-cases (n == "r2")) [
  | inl lost ↦ rw lost tt
  | inr here ↦ rw here (refl, (refl, tt))
]

abbrev corpus-IsCorpus : IsCorpus corpus
corpus-IsCorpus = (from_dict-IsCorpus vectors (refl, (refl, tt))).0

fits : Fit queries corpus.mat
unfolding from_dict
fits = ((refl, (refl, tt)), tt)

abbrev distinct : IsUnique (map (λ (q : Probe). q.name) probes)
distinct = (refl, (refl, (refl, tt)))

-- A replica whose ids were not listed is not searched.
lost_raw :
    probe_one queries none 1 (probe "r2" 2) (serve "r2")
    ≡ record { probe = probe "r2" 2; reachable = false; local = []; obs = []; loo_obs = [] }
unfolding probe_one
lost_raw = refl

sample_once_lem_example :
    (rows : List SampleRow) × (sample_once sorting queries corpus 1 "l2" none
        ("a" ∷ [])
        serve
        probes
      ≡ ok rows)
    × AreRowsOf (λ p. count_if (λ (q : Probe). p q.name) probes) rows
sample_once_lem_example =
    sample_once_lem sorting queries corpus 0 "l2" none ("a" ∷ []) serve probes sorting-IsNumpy
      corpus-IsCorpus (inl refl) fits serve-IsUnique distinct

abbrev round : Round
round = record {
  corpus = corpus;
  intended_all = "a" ∷ [];
  loo_queries = some queries;
  serve = serve;
}

abbrev nothing : Samples
nothing = record { rows_out = []; errors_out = [] }

sampler_loop_lem_example :
    HasSampled probes 2 nothing
      (sampler_loop sorting queries 1 "l2" probes (round ∷ round ∷ []) nothing)
sampler_loop_lem_example =
    sampler_loop_lem sorting queries 0 "l2" probes (round ∷ round ∷ []) nothing sorting-IsNumpy
      (inl refl) distinct
      (
        record { valid = corpus-IsCorpus; fit = fits; sets = serve-IsUnique },
        (record { valid = corpus-IsCorpus; fit = fits; sets = serve-IsUnique }, tt),
      )
      tt
