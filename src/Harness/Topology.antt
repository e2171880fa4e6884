-- ===== src/Harness/Topology.antt =====
-- The addresses of the cluster (the top of chaos_harness.py).
use nano_db.Common.{ℕ, ◌<◌, ◌≡◌, ◌≢◌, ap, ap₂, arith}
use nano_db.Harness.{
  Name, shard, coordinator, shard_port, coord_http_port, raft_port, num_shards, replicas_per_shard,
  num_coordinators,
}

-- The process is one of those that `build_processes` makes.
abbrev IsMember : Name → Type 0
IsMember (shard s r) = (s < num_shards) × (r < replicas_per_shard)
IsMember (coordinator n) = n < num_coordinators

-- The port on which the process serves its clients.
abbrev serving_port : Name → ℕ
unfolding shard_port coord_http_port
serving_port (shard s r) = shard_port s r
serving_port (coordinator n) = coord_http_port n

shard_port-inj :
    (s r s' r' : ℕ)
    → r < replicas_per_shard
    → r' < replicas_per_shard
    → shard_port s r ≡ shard_port s' r'
    → (s ≡ s') × (r ≡ r')
unfolding shard_port
shard_port-inj s r s' r' h h' q = (omega arith, omega arith)

-- Two processes of the cluster that serve on the same port are the same process.
serving_port-inj : (m n : Name) → IsMember m → IsMember n → serving_port m ≡ serving_port n → m ≡ n
unfolding shard_port coord_http_port
serving_port-inj (shard s r) (shard s' r') h k q =
    let (a, b) = shard_port-inj s r s' r' h.1 k.1 q in ap₂ shard a b
serving_port-inj (shard s r) (coordinator n) h k q = absurd (omega arith)
serving_port-inj (coordinator n) (shard s r) h k q = absurd (omega arith)
serving_port-inj (coordinator n) (coordinator n') h k q = ap coordinator (omega arith)

-- Processes of the cluster that serve on the same port are the same one, and no process serves on
-- the Raft port of a coordinator.
ports_lem :
    (m n : Name) (c : ℕ)
    → IsMember m
    → IsMember n
    → c < num_coordinators
    → (serving_port m ≡ serving_port n → m ≡ n) × (serving_port m ≢ raft_port c)
unfolding shard_port coord_http_port raft_port
ports_lem (shard s r) n c h k l =
    (serving_port-inj (shard s r) n h k, λ q. absurd (omega (arith, h.0, h.1, l)))
ports_lem (coordinator a) n c h k l = (serving_port-inj (coordinator a) n h k, λ q. omega arith)
