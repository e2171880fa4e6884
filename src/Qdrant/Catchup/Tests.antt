-- ===== src/Qdrant/Catchup/Tests.antt =====
-- A node that is killed twice, and how it catches up.
use nano_db.Common.{ℕ, ◌≡◌, refl, List, [], ◌∷◌, true, Option, some, none}
use nano_db.Common.Sort.{sort, place}
use nano_db.Analyze.{append_at}
use nano_db.Qdrant.Catchup.{
  Sample, Catchup, Run, Tally, rounds_by_time, group_samples, is_level, catchup_loop,
  catchup_for_kill, tally_run, tally_runs,
}
use nano_db.Qdrant.Catchup.Level.{IsCatchup, catchup_for_kill_lem}
use nano_db.Qdrant.Catchup.Counted.{AllOutcomes, HasGained, tally_runs_lem}

abbrev sample : ℕ → ℕ → Option ℕ → Sample
sample t replica c = record {
  t_rel = t;
  reachable = true;
  shard = 0;
  replica = replica;
  completeness = c;
}

-- At 4000 the node is behind its peer, at 6000 within the tolerance; at 9000 it has no value.
abbrev samples : List Sample
samples =
    sample 6000 0 (some 996000)
    ∷ sample 4000 0 (some 900000)
    ∷ sample 4000 1 (some 1000000)
    ∷ sample 6000 1 (some 1000000)
    ∷ sample 9000 0 none
    ∷ sample 9000 1 (some 1000000)
    ∷ []

abbrev run : Run
run = record {
  kills = record { node = 0; t_rel = 8000 } ∷ record { node = 0; t_rel = 1000 } ∷ [];
  samples = samples;
}

abbrev empty_tally : Tally
empty_tally = record { measured = []; interrupted = [] }

tallies :
    tally_runs 5000 (run ∷ []) empty_tally
    ≡ record { measured = 5000 ∷ []; interrupted = 1000 ∷ [] }
unfolding tally_runs tally_run rounds_by_time group_samples append_at sort place catchup_for_kill
    catchup_loop is_level
tallies = refl

catchup_for_kill_lem_example :
    IsCatchup
      (record { node = 0; t_rel = 1000 })
      (some 8000)
      5000
      (rounds_by_time samples)
      (catchup_for_kill
        (record { node = 0; t_rel = 1000 })
        (some 8000)
        (rounds_by_time samples)
        5000)
catchup_for_kill_lem_example =
    catchup_for_kill_lem (record { node = 0; t_rel = 1000 }) (some 8000) 5000 samples

tally_runs_lem_example :
    (cs : List Catchup) × AllOutcomes 5000 (run ∷ []) cs
    × HasGained cs empty_tally (tally_runs 5000 (run ∷ []) empty_tally)
tally_runs_lem_example = tally_runs_lem 5000 (run ∷ []) empty_tally
