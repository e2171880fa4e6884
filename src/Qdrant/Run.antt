-- ===== src/Qdrant/Run.antt =====
-- The phases of main and _run_experiment_body of
-- research/cross_system_replication/qdrant_run_experiment.py and the exit code they end in. Times are
-- in milliseconds and the tolerance is in millionths; the writer and its queries, the threads that the
-- phases start, the scores around the gate, and the files that are removed and written are left out.
pub mod Warmed
pub mod Prepared
pub mod Measured
pub mod Tests
use nano_db.Common.{
  ℕ, zero, suc, ◌+◌, Bool, true, false, not, ◌&&◌, ◌||◌, Option, none, some, if◌then◌else◌, leb,
  range, List, [], ◌∷◌, String, string_key, ◌==◌,
}
use nano_db.Common.Int.{ℤ, pos, pos_part, leb_ℤ}
use nano_db.Common.Frac.{Frac, Exception, Result, ok, raise, ◌>>=◌}
use nano_db.Qdrant.Schedule.{Step, build_kill_schedule}
use nano_db.Qdrant.Topology.{BringUp, bring_up_cluster, replicas_per_shard}
use nano_db.Qdrant.Gate.Wait.{Round, GateEnd, running, raised, returned, wait_for_index_gate}

pub record Args : Type 0 where
  pub index_gate : Bool
  pub index_gate_consecutive : ℤ
  pub index_gate_tol : ℤ
  pub index_gate_timeout : ℕ
  pub kill_schedule : Option String
  pub kill_count : ℕ
  pub kill_target_node : Option String
  pub no_chaos : Bool
  pub chaos_duration : Option ℕ
  pub pre_chaos_s : ℕ
  pub duration : ℕ
  pub warmup_until_written : Option ℕ

abbrev pub is_given : {A : Type 0} → Option A → Bool
is_given none = false
is_given (some a) = true

-- The truth value of `args.kill_schedule`.
abbrev pub is_scheduled : Option String → Bool
is_scheduled none = false
is_scheduled (some condition) = not (condition == "")

-- The arguments that are refused, with the exit code.
unfoldable pub check_args : Args → Option ℕ
check_args args =
    if args.index_gate && not (leb_ℤ (pos 1) args.index_gate_consecutive)
    then some 2
    else (if args.index_gate
          && not
              (leb_ℤ (pos 0) args.index_gate_tol && not (leb_ℤ (pos 1000000) args.index_gate_tol))
        then some 2
        else (if is_scheduled args.kill_schedule && args.no_chaos
            then some 2
            else (if is_given args.chaos_duration && args.no_chaos then some 1 else none)))

-- A look at the writer in the extended warmup: the confirmed writes, whether the corpus is exhausted,
-- and whether the cap is reached.
pub record Look : Type 0 where
  pub n_conf : ℕ
  pub exhausted : Bool
  pub past_cap : Bool

-- What a run meets: the bring-up, the looks of the warmup, and the rounds of the gate.
pub record World : Type 0 where
  pub bring_up : BringUp
  pub looks : ℕ → Look
  pub polls : ℕ → Round

-- Where a phase leaves the run; `stuck` is a wait that has used up its fuel.
pub data Phase : Type 0 where
  goes_on : Phase
  stuck : Phase
  raises : Exception → Phase
  exits : ℕ → Phase

-- The warmup until enough writes are confirmed; `i` looks have passed.
unfoldable pub warmup_loop : (ℕ → Look) → ℕ → ℕ → ℕ → Phase
warmup_loop looks target zero i = stuck
warmup_loop looks target (suc fuel) i =
    let look = looks i in
    let rest = warmup_loop looks target fuel (suc i) in
    if leb target look.n_conf
    then goes_on
    else (if look.exhausted || look.past_cap then exits 4 else rest)

unfoldable pub warm_up : (ℕ → Look) → ℕ → Option ℕ → Phase
unfolding warmup_loop
warm_up looks fuel none = goes_on
warm_up looks fuel (some target) = warmup_loop looks target fuel 0

abbrev pub of_gate : GateEnd → Phase
of_gate running = stuck
of_gate (raised e) = raises e
of_gate (returned r) = if r.closed then goes_on else exits 3

-- The tolerance as the gate takes it.
abbrev pub tol_of : Args → Frac
tol_of args = record { num = pos_part args.index_gate_tol; den = 1000000 }

unfoldable pub gate_end : World → ℕ → Args → GateEnd
gate_end w fuel args =
    wait_for_index_gate w.polls (range replicas_per_shard) (tol_of args)
      (pos_part args.index_gate_consecutive) args.index_gate_timeout fuel

unfoldable pub gate : World → ℕ → Args → Phase
unfolding gate_end
gate w fuel args = if args.index_gate then of_gate (gate_end w fuel args) else goes_on

abbrev pub and_then : Phase → Phase → Phase
and_then goes_on next = next
and_then stuck next = stuck
and_then (raises e) next = raises e
and_then (exits code) next = exits code

abbrev pub came_up : Result Bool → Phase
came_up (raise e) = raises e
came_up (ok up) = if not up then exits 1 else goes_on

-- The phases before the sampler is started.
unfoldable pub prepare : World → ℕ → ℕ → Args → Phase
unfolding warm_up gate
prepare w looks_fuel polls_fuel args =
    and_then (came_up (bring_up_cluster w.bring_up (range replicas_per_shard)))
      (and_then (warm_up w.looks looks_fuel args.warmup_until_written) (gate w polls_fuel args))

-- How a run ends, whether the sampler was started and samples.csv is written, and how often the
-- cluster was torn down.
pub record Outcome : Type 0 where
  pub end : Phase
  pub sampler_started : Bool
  pub samples_written : Bool
  pub teardowns : ℕ

abbrev pub container_names : List String
container_names = "rrd-qdrant-node0" ∷ "rrd-qdrant-node1" ∷ "rrd-qdrant-node2" ∷ []

-- `_chaos_thread`: the schedule of the thread that it makes, none for the random loop.
unfoldable pub chaos_thread : Args → ℕ → Result (Option (List Step))
chaos_thread args window_s = elim args.kill_schedule [
  | none ↦ ok none
  | some condition ↦
      if condition == ""
      then ok none
      else build_kill_schedule condition container_names args.kill_count window_s
          args.kill_target_node
        >>= λ steps. ok (some steps)
]

-- The samples are written when the time of the run is over.
abbrev pub finished : Outcome
finished = record { end = exits 0; sampler_started = true; samples_written = true; teardowns = 1 }

-- The run behind `_chaos_thread`, whose exception leaves main through its finally.
abbrev pub with_chaos : Result (Option (List Step)) → Outcome
with_chaos (ok plan) = finished
with_chaos (raise e) = record {
  end = raises e;
  sampler_started = true;
  samples_written = false;
  teardowns = 1;
}

-- From the start of the sampler on; where the chaos leaves no window, the cluster is torn down here
-- and once more behind the body.
unfoldable pub measure : Args → Outcome
unfolding chaos_thread
measure args = if args.no_chaos then finished else elim args.chaos_duration [
  | none ↦ with_chaos (chaos_thread args args.duration)
  | some d ↦
      if leb args.duration (args.pre_chaos_s + d)
      then record { end = exits 1; sampler_started = true; samples_written = false; teardowns = 2 }
      else with_chaos (chaos_thread args d)
]

abbrev pub fatal : Phase → ℕ → Outcome
fatal end n = record { end = end; sampler_started = false; samples_written = false; teardowns = n }

abbrev pub from_prepared : Phase → Args → Outcome
unfolding measure
from_prepared goes_on args = measure args
from_prepared stuck args = fatal stuck 1
from_prepared (raises e) args = fatal (raises e) 1
from_prepared (exits code) args = fatal (exits code) 1

abbrev pub from_checked : Option ℕ → Phase → Args → Outcome
from_checked (some code) prepared args = fatal (exits code) 0
from_checked none prepared args = from_prepared prepared args

unfoldable pub main : World → ℕ → ℕ → Args → Outcome
unfolding check_args prepare measure
main w looks_fuel polls_fuel args =
    from_checked (check_args args) (prepare w looks_fuel polls_fuel args) args
