-- ===== src/Harness/Tests.antt =====
-- The harness on small runs.
use nano_db.Common.{
  ℕ, ◌≡◌, refl, ◌↔◌, List, [], ◌∷◌, Bool, true, false, arith, nat_key, length, if◌then◌else◌, some,
  eqb,
}
use nano_db.Harness.{
  ManagedProcess, running, shard_env, Round, Cluster, chaos_loop, build_processes, restarts_of,
  bring_back,
}
use nano_db.Harness.Chaos.{IsAccounted, chaos_loop-IsAccounted, build-IsAccounted}
use nano_db.Harness.Counters.{
  Reply, failure, response, Writers, Move, at_test, waiting, writer_loop, IsBalanced, IsLater,
  open_requests, writer_loop-IsBalanced, duplicate_id_count,
}
use nano_db.Harness.Validator.{Body, Watch, check_node, IsQuiet}
use nano_db.Harness.Validator.Alarm.{check_node_lem}
use nano_db.Harness.Threads.{
  Threads, Tick, write, go_on, answer, run_threads, IsSettled, AllFair, run_threads_lem,
}
use nano_db.Harness.Run.{World, main, start_all, procs_of}
use nano_db.Harness.Run.Verdict.{IsPassed, AllDown, main_lem}

abbrev two_processes : List ManagedProcess
two_processes =
    record {
      env = shard_env 0 19090;
      proc = running;
      restart_count = 0;
      crash_on_restart_count = 0;
    }
    ∷ record {
      env = shard_env 0 19091;
      proc = running;
      restart_count = 0;
      crash_on_restart_count = 0;
    }
    ∷ []

abbrev before_chaos : Cluster
before_chaos = record { procs = two_processes; events = [] }

-- The second process is hit twice and fails once; then the stop event is seen.
abbrev three_rounds : List Round
three_rounds =
    record {
      stop_before = false;
      target = 1;
      t0 = 3;
      down_for = 2;
      stop_after = false;
      alive = false;
    }
    ∷ record {
      stop_before = false;
      target = 1;
      t0 = 9;
      down_for = 1;
      stop_after = false;
      alive = true;
    }
    ∷ record {
      stop_before = false;
      target = 0;
      t0 = 12;
      down_for = 4;
      stop_after = true;
      alive = true;
    }
    ∷ []

chaos_loop-IsAccounted_example : IsAccounted (chaos_loop three_rounds before_chaos)
chaos_loop-IsAccounted_example =
    chaos_loop-IsAccounted three_rounds before_chaos (omega arith, (omega arith, (omega arith, tt)))
      (build-IsAccounted two_processes ((refl, refl), ((refl, refl), tt)))

second_process_restarts : restarts_of ((chaos_loop three_rounds before_chaos).procs) 1 ≡ 2
unfolding chaos_loop bring_back
second_process_restarts = refl

abbrev two_writers : Writers
two_writers = record {
  positions = at_test ∷ at_test ∷ [];
  id_counter = 0;
  stats = record { attempted = 0; confirmed = 0; failed = 0; confirmed_ids = [] };
}

abbrev step_of : ℕ → Move
step_of w = record { writer = w; stop = false; reply = response 201 tt }

-- Both writers form their id before either has stored the counter.
abbrev racing : List Move
racing =
    step_of 0
    ∷ step_of 1
    ∷ step_of 0
    ∷ step_of 0
    ∷ step_of 1
    ∷ step_of 1
    ∷ step_of 0
    ∷ step_of 1
    ∷ step_of 0
    ∷ step_of 1
    ∷ []

empty-IsBalanced : IsBalanced 0 two_writers.stats
empty-IsBalanced = record { attempts = refl; ids = refl }

writer_loop-IsBalanced_example :
    IsBalanced
      (open_requests ((writer_loop racing two_writers).positions))
      ((writer_loop racing two_writers).stats)
    × IsLater (two_writers.stats) ((writer_loop racing two_writers).stats)
writer_loop-IsBalanced_example = writer_loop-IsBalanced racing two_writers empty-IsBalanced

racing_duplicates : duplicate_id_count ((writer_loop racing two_writers).stats) ≡ 1
unfolding writer_loop duplicate_id_count
racing_duplicates = refl

abbrev low_body : Body
low_body = record {
  total_element_count = some 1;
  degraded = false;
  replicas =
      record { shard_id = 0; is_primary = true } ∷ record { shard_id = 0; is_primary = true } ∷ [];
}

abbrev clear_watch : Watch
clear_watch = record { violations = []; checks_run = 0; degraded_dips = 0 }

check_node_lem_example :
    ((check_node 2 0 (response 200 low_body) clear_watch).violations ≡ [])
    ↔ IsQuiet 2 (response 200 low_body)
check_node_lem_example = check_node_lem 2 0 (response 200 low_body) clear_watch

low_body_alarms : length ((check_node 2 0 (response 200 low_body) clear_watch).violations) ≡ 2
unfolding check_node
low_body_alarms = refl

abbrev one_body : Body
one_body = record {
  total_element_count = some 1;
  degraded = false;
  replicas = record { shard_id = 0; is_primary = true } ∷ [];
}

abbrev one_writer : Threads
one_writer = record {
  writers = record {
    positions = waiting 0 ∷ [];
    id_counter = 1;
    stats = record { attempted = 1; confirmed = 0; failed = 0; confirmed_ids = [] };
  };
  watch = clear_watch;
  confirmed_before = 0;
  pending = [];
  asked = false;
}

-- The snapshot, the question, then a confirmation that the answer has not counted.
abbrev four_ticks : List Tick
four_ticks =
    go_on false
    ∷ go_on false
    ∷ write (step_of 0)
    ∷ answer (response 200 (record one_body { total_element_count = some 0 }))
    ∷ []

one_writer-IsSettled : IsSettled 0 one_writer
one_writer-IsSettled = record {
  balanced = record { attempts = refl; ids = refl };
  behind = omega arith;
  before_sent = λ a. omega arith;
}

four_ticks-fair : AllFair (0 ∷ []) four_ticks one_writer 0
unfolding run_threads
four_ticks-fair = (
  tt,
  (
    tt,
    (tt, (λ _. record { covered = λ t e d. omega arith; one_primary = λ sid. ground arith }, tt)),
  ),
)

run_threads_lem_example :
    (sent : ℕ) × IsSettled sent (run_threads (0 ∷ []) four_ticks one_writer)
    × ((run_threads (0 ∷ []) four_ticks one_writer).watch.violations ≡ [])
run_threads_lem_example =
    run_threads_lem (0 ∷ []) four_ticks 0 one_writer one_writer-IsSettled four_ticks-fair

-- Coordinator 0 answers in the second round only, the others in both.
abbrev two_rounds : List (ℕ → Reply Body)
two_rounds =
    (λ n. if eqb n 0 then failure else response 200 one_body) ∷ (λ n. response 200 one_body) ∷ []

abbrev leader_rounds : List (ℕ → Reply Bool)
leader_rounds = (λ n. response 200 false) ∷ (λ n. response 200 (eqb n 2)) ∷ []

abbrev nine_up : List Bool
nine_up = true ∷ true ∷ true ∷ true ∷ true ∷ true ∷ true ∷ true ∷ true ∷ []

abbrev quiet_world : World
quiet_world = record {
  binaries = true;
  started = nine_up;
  ready = two_rounds;
  leads = leader_rounds;
  writers = 2;
  ticks = [];
  rounds = three_rounds;
  brought_up = nine_up;
  final_replies = failure ∷ response 200 one_body ∷ [];
}

main_lem_example :
    (((main quiet_world).code ≡ 0) ↔ IsPassed quiet_world (main quiet_world).watch.violations)
    × ((start_all nine_up (procs_of build_processes)).0 ≡ true → AllDown ((main quiet_world).procs))
main_lem_example = main_lem quiet_world

quiet_world_passes : (main quiet_world).code ≡ 0
unfolding main
quiet_world_passes = refl
