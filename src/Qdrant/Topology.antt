-- ===== src/Qdrant/Topology.antt =====
-- research/cross_system_replication/qdrant_topology.py: the ports, the services of the compose file
-- and the waits of a cluster's bring-up. What the nodes answer in each round before a deadline is
-- an argument; writing the file as YAML and sending requests is I/O.
pub mod Ports
pub mod Ready
pub mod Tests
use nano_db.Common.{
  ℕ, zero, suc, ◌+◌, ◌*◌, List, [], ◌∷◌, ◌++◌, map, Bool, true, false, not, ◌&&◌, ◌||◌, Option,
  none, some, if◌then◌else◌, length, range, ltb, leb, eqb, is_empty, String, string_key, ◌==◌,
  nat_key,
}
use nano_db.Common.Sets.{select}
use nano_db.Common.Frac.{Result, ok, raise, request_error, ◌>>=◌}

abbrev pub num_shards : ℕ
num_shards = 2

abbrev pub replicas_per_shard : ℕ
replicas_per_shard = 3

abbrev pub http_base_port : ℕ
http_base_port = 16333

abbrev pub grpc_base_port : ℕ
grpc_base_port = 16350

abbrev pub internal_base_port : ℕ
internal_base_port = 16370

unfoldable pub http_port : ℕ → ℕ
http_port node = http_base_port + node

unfoldable pub grpc_port : ℕ → ℕ
grpc_port node = grpc_base_port + node

unfoldable pub internal_port : ℕ → ℕ
internal_port node = internal_base_port + node

unfoldable pub probe_port_fn : ℕ → ℕ → ℕ
unfolding internal_port
probe_port_fn shard_id replica_id = internal_port replica_id

-- A service of the compose file, named by its node: whether it bootstraps from another one, the host
-- ports in front of 6333, 6334 and 6335, its volume and the services that it waits for.
pub record Service : Type 0 where
  pub node : ℕ
  pub bootstrap : Option ℕ
  pub ports : List (ℕ × ℕ)
  pub volume : ℕ
  pub depends_on : List ℕ

unfoldable pub service_of : ℕ → Service
unfolding http_port grpc_port internal_port
service_of n = record {
  node = n;
  bootstrap = if ltb 0 n then some 0 else none;
  ports = (http_port n, 6333) ∷ (grpc_port n, 6334) ∷ (internal_port n, 6335) ∷ [];
  volume = n;
  depends_on = if ltb 0 n then 0 ∷ [] else [];
}

-- `write_compose_file`, the services.
unfoldable pub compose_services : List Service
unfolding service_of
compose_services = map service_of (range replicas_per_shard)

-- An answer: the request raised, or the status code and what is read of the body.
pub data Reply (B : Type 0) : Type 0 where
  failed : Reply B
  replied : ℕ → B → Reply B

abbrev pub is_ok : {B : Type 0} → Reply B → Bool
is_ok failed = false
is_ok (replied code body) = eqb code 200

-- The rounds that begin before the deadline.
unfoldable pub ready_loop : List (ℕ → Reply Unit) → List ℕ → List ℕ
ready_loop [] pending = pending
ready_loop (ask ∷ rounds) pending =
    let rest = ready_loop rounds (select (λ n. not (is_ok (ask n))) pending) in
    if is_empty pending then pending else rest

unfoldable pub wait_for_nodes_ready : List (ℕ → Reply Unit) → List ℕ → Bool
unfolding ready_loop
wait_for_nodes_ready rounds node_ids = is_empty (ready_loop rounds node_ids)

-- What is read of GET /cluster: the status and the number of peers.
pub record ClusterView : Type 0 where
  pub status : Option String
  pub peers : ℕ

abbrev pub is_enabled : Option String → Bool
is_enabled none = false
is_enabled (some s) = s == "enabled"

abbrev pub sees_cluster : ℕ → Reply ClusterView → Bool
sees_cluster n failed = false
sees_cluster n (replied code v) = eqb code 200 && is_enabled v.status && leb n v.peers

abbrev pub all_of : (ℕ → Bool) → List ℕ → Bool
all_of test [] = true
all_of test (n ∷ ns) = test n && all_of test ns

unfoldable pub wait_for_cluster_formed : List (ℕ → Reply ClusterView) → List ℕ → Bool
wait_for_cluster_formed [] node_ids = false
wait_for_cluster_formed (ask ∷ rounds) node_ids =
    let rest = wait_for_cluster_formed rounds node_ids in
    if all_of (λ n. sees_cluster (length node_ids) (ask n)) node_ids then true else rest

-- What is read of the collection's cluster: the states of the local and of the remote shards.
pub record ShardView : Type 0 where
  pub local_shards : List String
  pub remote_shards : List String

abbrev pub all_active : List String → Bool
all_active [] = true
all_active (s ∷ states) = s == "Active" && all_active states

abbrev pub sees_shards : Reply ShardView → Bool
sees_shards failed = false
sees_shards (replied code v) =
    let states = v.local_shards ++ v.remote_shards in
    eqb code 200 && leb (num_shards * replicas_per_shard) (length states) && all_active states

unfoldable pub wait_for_shards_active : List (Reply ShardView) → Bool
wait_for_shards_active [] = false
wait_for_shards_active (answer ∷ rounds) =
    let rest = wait_for_shards_active rounds in if sees_shards answer then true else rest

-- What a bring-up meets: docker's return code, the rounds of the waits, and the answer to the
-- request that creates the collection.
pub record BringUp : Type 0 where
  pub returncode : ℕ
  pub ready_rounds : List (ℕ → Reply Unit)
  pub cluster_rounds : List (ℕ → Reply ClusterView)
  pub created : Reply Unit
  pub shard_rounds : List (Reply ShardView)

-- `create_collection`, whose request may raise.
unfoldable pub create_collection : Reply Unit → Result Bool
create_collection failed = raise request_error
create_collection (replied code body) = ok (eqb code 200)

-- `bring_up_cluster` of qdrant_run_experiment.py.
unfoldable pub bring_up_cluster : BringUp → List ℕ → Result Bool
unfolding wait_for_nodes_ready wait_for_cluster_formed wait_for_shards_active create_collection
bring_up_cluster b node_ids =
    if not (eqb b.returncode 0)
    then ok false
    else (if not (wait_for_nodes_ready b.ready_rounds node_ids)
        then ok false
        else (if not (wait_for_cluster_formed b.cluster_rounds node_ids)
            then ok false
            else create_collection b.created >>= λ created.
                if not created
                then ok false
                else (if not (wait_for_shards_active b.shard_rounds) then ok false else ok true)))
