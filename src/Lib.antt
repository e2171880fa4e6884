-- ===== src/Lib.antt =====
-- Verification of the Python side of Nano-DB: the measurements that decide whether replicas of one
-- shard agree, the chaos harness that drives a cluster, and the statistics over its runs.
--
-- The program's parts and the files that model them. Paths are from the repository's root.
-- - research/replica_recall/metrics.py: `Metrics` has recall, completeness, and the agreement of
--   answers between replicas (recall_at_k, set_completeness, pairwise_agreement,
--   leave_one_out_agreement); `Search` has the snapshot of the corpus (Corpus), the exact search
--   (exact_topk_rows, exact_topk) and the scores of a replica (score_replica), which calls `Metrics`.
-- - research/replica_recall/graph_forensics.py: `Index` reads a saved index (load_index) from a
--   buffer of bytes, `Graph` computes the report on its graph (analyse) from the nodes that
--   `Index` returns: breadth-first search over a sorted edge list, degrees, asymmetric edges.
-- - research/replica_recall/run_experiment.py: `Retain` has the corpus of RetainingWriter, which
--   grows while snapshots of it share its array (_append_corpus, snapshot_corpus, intended_set); a
--   snapshot is what `Search` scores against. `Sample` has a sweep over the replicas (sample_once),
--   which calls `Metrics` and `Search`, and the loop that repeats it (sampler_loop).
-- - research/replica_recall/sift.py: `Fvecs` reads an fvecs buffer (read_fvecs); `Fvecs.Fetch` keeps
--   the cached files (_ensure, fetch) and loads them (load).
-- - chaos_harness.py: `Harness` has the ports, the configuration, ManagedProcess and chaos_loop;
--   `Harness.Counters` has Stats and writer_loop, `Harness.Validator` the body of validator_loop,
--   `Harness.Threads` the two side by side, `Harness.Run` the waits and main.
-- - research/replica_recall/analyze.py: `Analyze` has the rows of samples.csv, the grouping by
--   index size and by instant (_recall_by_size, _intra_shard_spreads), `Analyze.Detection` the
--   detector's score (resolution_eps, _detection_stats), `Analyze.Heal` heal_stats,
--   `Analyze.Windows` recall around a failover, `Analyze.Summary` summarize_run, and
--   `Analyze.Report` the reports that end in a judgement.
-- - research/replica_recall/aggregate.py: `Sweep` has the rank test (mann_whitney) and the report
--   on healing (report_healing), `Sweep.Discover` the reading of a sweep (discover).
-- - research/cross_system_replication/qdrant_index_gate.py: `Qdrant.Gate` has the polls of the nodes
--   and the decision (gate_decision), `Qdrant.Gate.Wait` the wait (wait_for_index_gate).
-- - research/cross_system_replication/qdrant_docker_harness.py: `Qdrant.Schedule` builds a kill
--   schedule and runs it (build_kill_schedule, chaos_loop_scheduled);
--   research/qdrant_kill_scheduler/check_realized_schedule.py, `Qdrant.Schedule.Realized`, judges the
--   events that it leaves (check_run, main); derive_catchup_time.py beside it is `Qdrant.Catchup`
--   (catchup_for_kill). `Qdrant.Cluster` has the containers, chaos_loop and validator_loop.
-- - research/cross_system_replication/qdrant_topology.py: `Qdrant.Topology` has the ports, the
--   services and the waits, and bring_up_cluster of qdrant_run_experiment.py; `Qdrant.Writer` has the
--   writer threads of that file (RetainingWriter._make_batch and loop), which keep what is confirmed
--   in the corpus of `Retain`, since _append_corpus is the same code in both drivers;
--   `Qdrant.Run` has the phases of main and _run_experiment_body, which call the bring-up and the gate,
--   and the exit code.
-- `Common` holds what they share: tests, lists under native indices, finite sets, integers, exact
-- quotients with Python's exceptions, and sorting. Child modules without definitions of code hold
-- the lemmas on their parent, and every `Tests` the runs on small inputs.
--
-- How the code is read:
-- - A float that is a quotient of counts is kept exact, as a numerator and a denominator (`Frac`);
--   NaN is a constructor, or none. Vectors have integer coordinates, since a common scale does not
--   change an order of distances; a product of vectors of
--   unequal dimension raises ValueError. The cells of samples.csv are written with six decimals, so they
--   are whole numbers of millionths; times have three decimals. Rounding is not modelled.
-- - An exception is a value of `Result`. A dict is an association list in insertion order, a set a
--   list without repetition; both are sorted where the code sorts.
-- - State is passed on explicitly. A thread is a sequence of steps: each step of a writer or of the
--   validator is one that the code does in one go, a run is any list of such steps, and what the
--   world decides (which thread moves, the stop event, answers over HTTP, whether a child stays
--   alive) is in the steps. In `Harness.Threads` a question of the validator and its answer are two
--   steps, between which writes can be confirmed.
-- - numpy's argpartition and argsort, percentile, median, corrcoef and math.erfc are arguments of
--   the definitions that use them, with the documented behaviour as a hypothesis where it is
--   needed (`Search.TopK`), and instances of it in the tests.
-- - The search over frontiers in `Graph` recurs on fuel, with the number of nodes plus 2 of it: each
--   round but the last marks a node that was not marked. The waits of the harness recur on the
--   rounds that begin before their deadline, the final read-back on its ten attempts, the index gate on its rounds,
--   of which timeout / poll_s + 1 are enough, and the extended warmup on its looks up to one past
--   its cap.
--
-- Not modelled: opening and printing files, subprocesses, sockets and JSON, which are I/O; the
-- link-quality sample of graph_forensics.py, which draws from numpy's generator; the drift check of
-- analyze.py (numpy's polyfit); the rest of the experiment drivers (run_experiment.py, sweep.py,
-- probe.py), the rest of the Qdrant and Weaviate replications and the document checks under research; the C++
-- server, cluster and index.
pub mod Common
pub mod Metrics
pub mod Search
pub mod Index
pub mod Graph
pub mod Fvecs
pub mod Harness
pub mod Sweep
pub mod Analyze
pub mod Retain
pub mod Sample
pub mod Qdrant
