-- ===== src/Harness/Run.antt =====
-- `wait_for_coordinators_ready`, `wait_for_raft_leader` and `main` of chaos_harness.py: the start
-- of the cluster, the final read-back and the exit code.
pub mod Waits
pub mod Verdict
use nano_db.Common.{
  replicate, ℕ, zero, suc, ◌+◌, ◌≤◌, ◌≡◌, ◌≢◌, refl, sym, ap, ◌↔◌, ◌∙◌, List, [], ◌∷◌, ◌++◌, map,
  range, Bool, true, false, not, ◌&&◌, ◌||◌, arith, nat_key, length, Option, none, some, eqb,
  Bool-cases, if◌then◌else◌, inl, inr, is_empty, take, All, ◌==◌, ◌⊎◌, List-cases,
}
use nano_db.Common.Sets.{any, contains, select, count_if}
use nano_db.Harness.{
  ManagedProcess, Child, Name, Cluster, Round, start, kill, is_alive, build_processes, chaos_loop,
  num_coordinators,
}
use nano_db.Harness.Counters.{
  Reply, failure, response, Stats, Writers, at_test, empty_stats, snapshot_confirmed,
}
use nano_db.Harness.Validator.{Body, Watch}
use nano_db.Harness.Threads.{Threads, Tick, run_threads}

-- `status == 200` for an exchange that does not fail.
unfoldable pub is_ok : {B : Type 0} → Reply B → Bool
is_ok failure = false
is_ok (response status b) = eqb status 200

-- `status == 200 and body.get("role") == "leader"`; the body is the second test.
unfoldable pub is_leader : Reply Bool → Bool
is_leader failure = false
is_leader (response status leader) = eqb status 200 && leader

-- `wait_for_coordinators_ready`: in each round that begins before the deadline, the coordinators
-- that are pending are asked. The list holds the rounds' answers by coordinator.
unfoldable pub wait_for_coordinators_ready : List (ℕ → Reply Body) → List ℕ → Bool
unfolding is_ok
wait_for_coordinators_ready [] pending = is_empty pending
wait_for_coordinators_ready (answers ∷ rounds) pending =
    let rest = wait_for_coordinators_ready rounds (select (λ n. not (is_ok (answers n))) pending) in
    if is_empty pending then true else rest

-- One round of `wait_for_raft_leader`: the first coordinator that says that it leads.
unfoldable pub first_leader : (ℕ → Reply Bool) → List ℕ → Option ℕ
unfolding is_leader
first_leader leads [] = none
first_leader leads (n ∷ ns) =
    let rest = first_leader leads ns in if is_leader (leads n) then some n else rest

unfoldable pub wait_for_raft_leader : List (ℕ → Reply Bool) → List ℕ → Option ℕ
unfolding first_leader
wait_for_raft_leader [] node_ids = none
wait_for_raft_leader (leads ∷ rounds) node_ids = elim (first_leader leads node_ids) [
  | some n ↦ some n
  | none ↦ wait_for_raft_leader rounds node_ids
]

-- The loops that start the processes in order, up to the first one that does not stay alive. A
-- process without a flag does not.
unfoldable pub start_all : List Bool → List ManagedProcess → Bool × List ManagedProcess
unfolding start
start_all alive [] = (true, [])
start_all [] (p ∷ ps) = (false, (start false p).0 ∷ ps)
start_all (a ∷ alive) (p ∷ ps) =
    let (fine, qs) = start_all alive ps in
    if a then (fine, (start true p).0 ∷ qs) else (false, (start false p).0 ∷ ps)

-- Every process that is not alive is started again, with or without success.
unfoldable pub bring_up : List Bool → List ManagedProcess → List ManagedProcess
unfolding start is_alive
bring_up alive [] = []
bring_up [] (p ∷ ps) = (if not (is_alive p) then (start false p).0 else p) ∷ bring_up [] ps
bring_up (a ∷ alive) (p ∷ ps) = (if not (is_alive p) then (start a p).0 else p) ∷ bring_up alive ps

-- The final read-back: the first answer with status 200 among ten gives `final_total`.
unfoldable pub final_read : ℕ → List (Reply Body) → Bool × Option ℕ
final_read zero replies = (false, none)
final_read (suc attempts) [] = (false, none)
final_read (suc attempts) (failure ∷ replies) = final_read attempts replies
final_read (suc attempts) (response status body ∷ replies) =
    let rest = final_read attempts replies in
    if eqb status 200 then (true, body.total_element_count) else rest

-- The exit code at the end of `main`.
unfoldable pub exit_code : ℕ → Bool → ℕ
exit_code n_violations final_ok = if not (eqb n_violations 0) || not final_ok then 1 else 0

-- What the world does in a run: the binaries are there, which children stay alive at the start,
-- how the coordinators answer while `main` waits, what the threads and the chaos see, which
-- children stay alive when they are brought up, and the answers to the final read-back.
pub record World : Type 0 where
  pub binaries : Bool
  pub started : List Bool
  pub ready : List (ℕ → Reply Body)
  pub leads : List (ℕ → Reply Bool)
  pub writers : ℕ
  pub ticks : List Tick
  pub rounds : List Round
  pub brought_up : List Bool
  pub final_replies : List (Reply Body)

-- The end of a run: the exit code, the processes that it leaves, and the figures that it reports.
pub record Outcome : Type 0 where
  pub code : ℕ
  pub procs : List ManagedProcess
  pub watch : Watch
  pub stats : Stats

abbrev empty_watch : Watch
empty_watch = record { violations = []; checks_run = 0; degraded_dips = 0 }

abbrev pub procs_of : List (Name × ManagedProcess) → List ManagedProcess
procs_of [] = []
procs_of ((name, p) ∷ ps) = p ∷ procs_of ps

-- `sys.exit(1)` before the threads are started.
abbrev pub fatal : List ManagedProcess → Outcome
unfolding empty_stats
fatal ps = record { code = 1; procs = ps; watch = empty_watch; stats = empty_stats }

-- `main` from the start of the threads on.
unfoldable pub run_chaos : World → List ManagedProcess → Outcome
unfolding chaos_loop run_threads bring_up final_read exit_code kill empty_stats
run_chaos w ps =
    let node_ids = range num_coordinators in
    let idle : Writers = record {
      positions = replicate w.writers at_test;
      id_counter = 0;
      stats = empty_stats;
    } in
    let threads : Threads = record {
      writers = idle;
      watch = empty_watch;
      confirmed_before = 0;
      pending = [];
      asked = false;
    } in
    let t = run_threads node_ids (w.ticks) threads in
    let c = chaos_loop (w.rounds) (record { procs = ps; events = [] }) in
    let (final_ok, final_total) = final_read 10 (w.final_replies) in
    record {
      code = exit_code (length (t.watch.violations)) final_ok;
      procs = map kill (bring_up (w.brought_up) (c.procs));
      watch = t.watch;
      stats = t.writers.stats;
    }

-- `main` once all processes run.
unfoldable pub run_started : World → List ManagedProcess → Outcome
unfolding run_chaos wait_for_coordinators_ready wait_for_raft_leader kill
run_started w ps =
    let node_ids = range num_coordinators in
    if not (wait_for_coordinators_ready (w.ready) node_ids)
    then fatal (map kill ps)
    else elim (wait_for_raft_leader (w.leads) node_ids) [
      | none ↦ fatal (map kill ps)
      | some leader ↦ run_chaos w ps
    ]

unfoldable pub main : World → Outcome
unfolding start_all build_processes run_started
main w =
    let (fine, ps) = start_all (w.started) (procs_of build_processes) in
    if not (w.binaries) then fatal [] else (if not fine then fatal ps else run_started w ps)
