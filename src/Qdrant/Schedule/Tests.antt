-- ===== src/Qdrant/Schedule/Tests.antt =====
-- Schedules on three nodes, a run of one, and the judgement on it.
use nano_db.Common.{
  ℕ, zero, suc, ◌≤◌, ◌<◌, ◌≡◌, ◌↔◌, ◌⊎◌, refl, List, [], ◌∷◌, map, true, false, some, none, arith,
  All, length, String, Option,
}
use nano_db.Common.Int.{pos, negsuc, ◌-ℤ◌}
use nano_db.Common.Frac.{ok, raise, value_error, Exception}
use nano_db.Qdrant.Schedule.{
  Step, Moment, done, build_kill_schedule, plan_of, steps_from, run_step, event_of, get_restart,
  chaos_loop_scheduled,
}
use nano_db.Qdrant.Schedule.Spacing.{IsRefused, IsSchedule, build_kill_schedule_lem}
use nano_db.Qdrant.Schedule.Ran.{AreKillsOf, NeverStopped, chaos_loop_scheduled_lem}
use nano_db.Qdrant.Schedule.Realized.{
  scheduled_kill, check_run, check_scheduled, main, add_runs, add_run, targeting_ok, drift_verdict,
  within_tolerance, killed_down, no_kills, abs_ℤ, drift_tolerance,
}
use nano_db.Qdrant.Schedule.Judged.{IsAsRequested, chaos_loop_scheduled-IsAsRequested}
use nano_db.Qdrant.Schedule.Drift.{drift_verdict_lem}

abbrev names : List String
names = "n0" ∷ "n1" ∷ "n2" ∷ []

abbrev step : ℕ → String → ℕ → Option ℕ → Step
step i t at gap = record { seq = i; target = t; at = at; gap = gap; down_for = 4500 }

abbrev short_steps : List Step
short_steps = step 0 "n1" 0 none ∷ step 1 "n1" 9500 (some 5000) ∷ []

builds_short : build_kill_schedule "short-gap-same-node" names 2 20000 (some "n1") ≡ ok short_steps
unfolding build_kill_schedule plan_of steps_from
builds_short = refl

-- The first kill of a node under "spread" has a requested gap.
builds_spread :
    build_kill_schedule "spread" names 2 60000 none
    ≡ ok (step 0 "n0" 0 none ∷ step 1 "n1" 44500 (some 40000) ∷ [])
unfolding build_kill_schedule plan_of steps_from
builds_spread = refl

refuses_window : build_kill_schedule "spread" names 2 48999 none ≡ raise value_error
unfolding build_kill_schedule plan_of steps_from
refuses_window = refl

refuses_typo :
    build_kill_schedule "long-gap-same-node" names 2 60000 (some "n9") ≡ raise value_error
unfolding build_kill_schedule plan_of steps_from
refuses_typo = refl

-- The second kill hits a container that is down, and is late.
abbrev world : ℕ → Moment
world zero = record {
  now = 0;
  stop_in_wait = false;
  is_set = false;
  t0 = 10;
  calls = done true true;
  restarted_at = 6000;
}
world (suc i) = record {
  now = 6001;
  stop_in_wait = false;
  is_set = false;
  t0 = 9600;
  calls = done false true;
  restarted_at = 15000;
}

finds_killed_down :
    main (
      map scheduled_kill (chaos_loop_scheduled "short-gap-same-node" world short_steps [])
      ∷ ([] ∷ []))
    ≡ record {
      exit_code = 0;
      totals = record {
        all_drift = negsuc 1399 ∷ [];
        all_latency = pos 1490 ∷ [];
        problems = killed_down 1 ∷ no_kills ∷ [];
      };
      verdict = within_tolerance;
    }
unfolding main add_runs add_run check_run check_scheduled targeting_ok drift_verdict
    chaos_loop_scheduled run_step event_of get_restart ◌-ℤ◌
finds_killed_down = refl

build_kill_schedule_lem_example :
    ((e : Exception) × (build_kill_schedule "spread" names 2 60000 none ≡ raise e)
      × IsRefused "spread" names 2 60000 none e)
    ⊎ ((steps : List Step) × (build_kill_schedule "spread" names 2 60000 none ≡ ok steps)
        × IsSchedule "spread" names 2 60000 none steps)
build_kill_schedule_lem_example = build_kill_schedule_lem "spread" names 2 60000 none

chaos_loop_scheduled_lem_example :
    AreKillsOf "spread" short_steps (chaos_loop_scheduled "spread" world short_steps [])
    × (NeverStopped world
        → length (chaos_loop_scheduled "spread" world short_steps []) ≡ length short_steps)
chaos_loop_scheduled_lem_example = chaos_loop_scheduled_lem "spread" world short_steps []

some_kills : 0 < length (chaos_loop_scheduled "short-gap-same-node" world short_steps [])
unfolding chaos_loop_scheduled run_step event_of get_restart
some_kills = omega arith

chaos_loop_scheduled-IsAsRequested_example :
    IsAsRequested "short-gap-same-node"
      (chaos_loop_scheduled "short-gap-same-node" world short_steps [])
chaos_loop_scheduled-IsAsRequested_example =
    chaos_loop_scheduled-IsAsRequested "short-gap-same-node" names 2 20000 (some "n1") short_steps
      world (refl, (refl, (refl, tt))) builds_short some_kills

drift_verdict_lem_example :
    (drift_verdict (pos 2000 ∷ negsuc 2000 ∷ []) ≡ within_tolerance)
    ↔ ((0 < 2) × All (λ d. abs_ℤ d ≤ drift_tolerance) (pos 2000 ∷ negsuc 2000 ∷ []))
drift_verdict_lem_example = drift_verdict_lem (pos 2000 ∷ negsuc 2000 ∷ [])
