-- ===== src/Qdrant/Cluster/Tests.antt =====
-- Three nodes that claim to lead, and containers that are killed.
use nano_db.Common.{
  ℕ, ◌≡◌, ◌⊎◌, refl, List, [], ◌∷◌, ◌++◌, true, false, some, none, eqb, if◌then◌else◌, nat_key,
}
use nano_db.Qdrant.Cluster.{
  ClusterAnswer, answered, unanswered, Watch, leaders_of, is_split, watch_round, Inspected, restart,
  start, is_alive, Round, hung, started, stopped, kill_round, chaos_loop, term_key,
}
use nano_db.Qdrant.Cluster.Watched.{SplitBrain, watch_round_lem}

abbrev quiet : Watch
quiet = record { violations = []; checks_run = 0; last_leader_term = [] }

abbrev leads : ℕ → ClusterAnswer
leads term = answered 200 (some "Leader") (some term)

abbrev nodes : List ℕ
nodes = 0 ∷ 1 ∷ 2 ∷ []

-- Nodes 0 and 1 lead in term 5 at once; the stale claim of node 2 hides it.
hides_split : (watch_round (λ n. if eqb n 2 then leads 4 else leads 5) nodes quiet).violations ≡ []
unfolding watch_round leaders_of is_split
hides_split = refl

shows_split :
    (watch_round (λ n. if eqb n 2 then unanswered else leads 5) nodes quiet).violations
    ≡ ((0, some 5) ∷ (1, some 5) ∷ []) ∷ []
unfolding watch_round leaders_of is_split
shows_split = refl

watch_round_lem_example :
    (((watch_round (λ n. leads 5) nodes quiet).violations
        ≡ quiet.violations ++ (leaders_of (λ n. leads 5) nodes ∷ []))
      × SplitBrain (λ n. leads 5) nodes)
    ⊎ (((watch_round (λ n. leads 5) nodes quiet).violations ≡ quiet.violations)
        × (SplitBrain (λ n. leads 5) nodes → ⊥))
watch_round_lem_example = watch_round_lem (λ n. leads 5) nodes quiet

abbrev gone : Inspected
gone = record { returncode = 1; stdout = "" }

counts_crash :
    restart gone (record { restart_count = 2; crash_on_restart_count = 0 })
    ≡ (record { restart_count = 3; crash_on_restart_count = 1 }, false)
unfolding restart start is_alive
counts_crash = refl

abbrev hit : ℕ → Round
hit t = record {
  is_set = false;
  target = "rrd-qdrant-node0";
  t0 = t;
  calls = if eqb t 7 then hung true else (if eqb t 8 then stopped else started 1500 gone);
}

-- A call that hangs is recorded and the loop goes on; the stop event ends it.
records_hang :
    chaos_loop (hit 7 ∷ hit 8 ∷ hit 9 ∷ [])
    ≡ record {
      t = 7;
      target = "rrd-qdrant-node0";
      alive_after_restart = none;
      down_for = none;
      failed = true;
      timed_out = true;
    }
      ∷ []
unfolding chaos_loop kill_round
records_hang = refl
