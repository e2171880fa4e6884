-- ===== src/Harness.antt =====
-- chaos_harness.py: the cluster's layout, the managed processes, the counters and the validator.
-- What the world does (whether a child stays alive, what a coordinator answers, what the random
-- choices are, when the stop event is seen) is an argument of each step.
pub mod Chaos
pub mod Topology
pub mod Validator
pub mod Counters
pub mod Threads
pub mod Run
pub mod Tests
use nano_db.Common.{
  ℕ, zero, suc, ◌+◌, ◌-◌, ◌*◌, ◌≤◌, ◌<◌, List, [], ◌∷◌, ◌++◌, map, Bool, true, false, not, ◌&&◌,
  ◌||◌, Option, none, some, nat_key, Key, ◌==◌, if◌then◌else◌, length, ltb, leb, eqb, range,
}
use nano_db.Common.Sets.{select, contains, to_set, count_if, any, diff}

abbrev pub num_shards : ℕ
num_shards = 2

abbrev pub replicas_per_shard : ℕ
replicas_per_shard = 3

abbrev pub num_coordinators : ℕ
num_coordinators = 3

abbrev pub shard_base_port : ℕ
shard_base_port = 19090

abbrev pub coord_http_base_port : ℕ
coord_http_base_port = 18180

abbrev pub raft_base_port : ℕ
raft_base_port = 17100

unfoldable pub shard_port : ℕ → ℕ → ℕ
shard_port shard_id replica_id = shard_base_port + shard_id * replicas_per_shard + replica_id

unfoldable pub coord_http_port : ℕ → ℕ
coord_http_port node_id = coord_http_base_port + node_id

unfoldable pub raft_port : ℕ → ℕ
raft_port node_id = raft_base_port + node_id

-- An entry of "shards" in the cluster configuration; the host is always 127.0.0.1.
pub record ShardEntry : Type 0 where
  pub shard_id : ℕ
  pub replica_id : ℕ
  pub port : ℕ
  pub primary : Bool

pub record PeerEntry : Type 0 where
  pub node_id : ℕ
  pub raft_port : ℕ

unfoldable pub shard_entries : ℕ → List ℕ → List ShardEntry
unfolding shard_port
shard_entries s [] = []
shard_entries s (r ∷ rs) =
    record { shard_id = s; replica_id = r; port = shard_port s r; primary = eqb r 0 }
    ∷ shard_entries s rs

unfoldable pub all_entries : List ℕ → List ShardEntry
unfolding shard_entries
all_entries [] = []
all_entries (s ∷ ss) = shard_entries s (range replicas_per_shard) ++ all_entries ss

-- What `write_initial_configs` dumps into the two files.
unfoldable pub write_initial_configs : List ShardEntry × List PeerEntry
unfolding all_entries raft_port
write_initial_configs = (
  all_entries (range num_shards),
  map (λ n. record { node_id = n; raft_port = raft_port n }) (range num_coordinators),
)

-- The names of the processes, `shard-s-r` and `coordinator-n`, in the order of the dict.
pub data Name : Type 0 where
  shard : ℕ → ℕ → Name
  coordinator : ℕ → Name

-- A child that was never started, that runs, or that is gone (`poll()` gives its exit code).
pub data Child : Type 0 where
  absent running gone : Child

-- The part of a child's environment that differs between processes; paths follow from the name.
pub data Env : Type 0 where
  shard_env : (shard_id grpc_port : ℕ) → Env
  coordinator_env : (http_port raft_node_id : ℕ) → Env

pub record ManagedProcess : Type 0 where
  pub env : Env
  pub proc : Child
  pub restart_count : ℕ
  pub crash_on_restart_count : ℕ

-- `start()`: the new child is alive after the grace period, or not.
unfoldable pub start : Bool → ManagedProcess → ManagedProcess × Bool
start alive p = (record p { proc = if alive then running else gone }, alive)

unfoldable pub is_alive : ManagedProcess → Bool
is_alive p = elim (p.proc) [ absent ↦ false | running ↦ true | gone ↦ false ]

-- A child that runs is gone after SIGKILL; one that is not there or gone stays as it is.
unfoldable pub kill : ManagedProcess → ManagedProcess
unfolding is_alive
kill p = if is_alive p then record p { proc = gone } else p

unfoldable pub restart : Bool → ManagedProcess → ManagedProcess × Bool
unfolding start kill
restart alive p =
    let q = kill p in
    let q' = record q { restart_count = q.restart_count + 1 } in
    let (r, up) = start alive q' in
    (if up then r else record r { crash_on_restart_count = r.crash_on_restart_count + 1 }, up)

-- `ManagedProcess(...)`.
unfoldable pub fresh_process : Env → ManagedProcess
fresh_process env = record {
  env = env;
  proc = absent;
  restart_count = 0;
  crash_on_restart_count = 0;
}

unfoldable pub shard_process : ℕ → ℕ → Name × ManagedProcess
unfolding fresh_process shard_port
shard_process s r = (shard s r, fresh_process (shard_env s (shard_port s r)))

unfoldable pub coordinator_process : ℕ → Name × ManagedProcess
unfolding fresh_process coord_http_port
coordinator_process n = (coordinator n, fresh_process (coordinator_env (coord_http_port n) n))

unfoldable pub shard_processes : List ℕ → List (Name × ManagedProcess)
unfolding shard_process
shard_processes [] = []
shard_processes (s ∷ ss) = map (shard_process s) (range replicas_per_shard) ++ shard_processes ss

unfoldable pub build_processes : List (Name × ManagedProcess)
unfolding shard_processes coordinator_process
build_processes =
    shard_processes (range num_shards) ++ map coordinator_process (range num_coordinators)

-- An entry of `events`; times are on the clock's scale.
pub record Event : Type 0 where
  pub t : ℕ
  pub target : ℕ
  pub alive_after_restart : Bool
  pub down_for : ℕ
  pub restart_count : ℕ

-- The choices that the world makes in one round: whether the stop event is set after the first
-- sleep and after the second one, which process is hit, and whether its new child stays alive.
pub record Round : Type 0 where
  pub stop_before : Bool
  pub target : ℕ
  pub t0 : ℕ
  pub down_for : ℕ
  pub stop_after : Bool
  pub alive : Bool

-- The processes in the order of their names; a target is an index.
pub record Cluster : Type 0 where
  pub procs : List ManagedProcess
  pub events : List Event

abbrev pub update_at {ℓ} : {A : Type ℓ} → List A → ℕ → (A → A) → List A
update_at [] i f = []
update_at (x ∷ xs) zero f = f x ∷ xs
update_at (x ∷ xs) (suc i) f = x ∷ update_at xs i f

abbrev pub restarts_of : List ManagedProcess → ℕ → ℕ
restarts_of [] i = 0
restarts_of (p ∷ ps) zero = p.restart_count
restarts_of (p ∷ ps) (suc i) = restarts_of ps i

-- `p.start()` and the counters in `chaos_loop`.
unfoldable pub bring_back : Bool → ManagedProcess → ManagedProcess
unfolding start
bring_back alive p =
    let (q, up) = start alive p in
    if not up
    then record q {
      restart_count = q.restart_count + 1;
      crash_on_restart_count = q.crash_on_restart_count + 1;
    }
    else record q { restart_count = q.restart_count + 1 }

-- `chaos_loop` over the rounds that the world grants.
unfoldable pub chaos_loop : List Round → Cluster → Cluster
unfolding kill start bring_back
chaos_loop [] c = c
chaos_loop (r ∷ rounds) c =
    let killed = update_at (c.procs) (r.target) kill in
    let ended : Cluster = record c {
      procs = update_at killed (r.target) (λ p. (start (r.alive) p).0);
    } in
    let back = update_at killed (r.target) (bring_back (r.alive)) in
    let event : Event = record {
      t = r.t0;
      target = r.target;
      alive_after_restart = r.alive;
      down_for = r.down_for;
      restart_count = restarts_of back (r.target);
    } in
    let next : Cluster = record { procs = back; events = c.events ++ event ∷ [] } in
    let rest = chaos_loop rounds next in
    if r.stop_before then c else (if r.stop_after then ended else rest)
