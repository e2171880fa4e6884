-- ===== src/Qdrant/Run/Tests.antt =====
-- A run that waits for two confirmed writes and for the index gate.
use nano_db.Common.{none, ℕ, ◌≡◌, refl, [], ◌∷◌, true, false, some, replicate, leb, ◌*◌}
use nano_db.Common.Int.{pos, negsuc}
use nano_db.Qdrant.Topology.{replied}
use nano_db.Qdrant.Gate.{answered}
use nano_db.Common.Frac.{value_error}
use nano_db.Qdrant.Schedule.{build_kill_schedule, plan_of, steps_from}
use nano_db.Qdrant.Run.{
  Args, World, Look, exits, check_args, measure, warmup_loop, raises, chaos_thread,
}

abbrev args : Args
args = record {
  index_gate = true;
  index_gate_consecutive = pos 2;
  index_gate_tol = pos 10000;
  index_gate_timeout = 6000;
  kill_schedule = some "spread";
  kill_count = 2;
  kill_target_node = none;
  no_chaos = false;
  chaos_duration = some 60000;
  pre_chaos_s = 2000;
  duration = 70000;
  warmup_until_written = some 2;
}

abbrev look_at : ℕ → Look
look_at i = record { n_conf = i; exhausted = leb 4 i; past_cap = leb 6 i }

abbrev world : World
world = record {
  bring_up = record {
    returncode = 0;
    ready_rounds = (λ n. replied 200 tt) ∷ (λ n. replied 200 tt) ∷ [];
    cluster_rounds = (λ n. replied 200 (record { status = some "enabled"; peers = 3 })) ∷ [];
    created = replied 200 tt;
    shard_rounds =
        replied 200
          (record { local_shards = replicate 2 "Active"; remote_shards = replicate 4 "Active" })
        ∷ [];
  };
  looks = look_at;
  polls = λ i. record {
    ask = λ n. answered 200 (record {
      indexed = some 995;
      points = some 1000;
      segments = some 2;
      status = some "green";
      optimizer_status = some "ok";
    });
    elapsed = i * 2000;
  };
}

-- A tolerance below 0 is refused.
refuses_tol : check_args (record args { index_gate_tol = negsuc 0 }) ≡ some 2
unfolding check_args
refuses_tol = refl

-- The chaos takes all of the time, which shows when the sampler runs already.
no_window : (measure (record args { duration = 62000 })).end ≡ exits 1
unfolding measure
no_window = refl

-- The corpus is exhausted before the fifth write.
gives_up : warmup_loop look_at 5 7 0 ≡ exits 4
unfolding warmup_loop
gives_up = refl

-- Four kills do not go to three nodes: the run raises when the sampler runs already.
raises_schedule : (measure (record args { kill_count = 4 })).end ≡ raises value_error
unfolding measure chaos_thread build_kill_schedule plan_of steps_from
raises_schedule = refl
