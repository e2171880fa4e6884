-- ===== src/Qdrant/Topology/Ports.antt =====
-- The host ports of the compose file of research/cross_system_replication/qdrant_topology.py.
use nano_db.Common.{ℕ, ◌<◌, ◌≡◌, ◌≢◌, refl, List, [], ◌∷◌, ◌++◌, arith, map, nat_key}
use nano_db.Qdrant.Topology.{
  replicas_per_shard, http_port, grpc_port, internal_port, probe_port_fn, Service,
}

-- The host ports of some services.
abbrev pub host_ports : List Service → List ℕ
host_ports [] = []
host_ports (s ∷ services) = map (λ p. p.0) s.ports ++ host_ports services

-- No port of one family is one of another family for any two nodes of the cluster, two nodes have
-- different ports, and the probe dials the internal port of the replica's node for every shard.
pub port_families :
    (n m : ℕ)
    → n < replicas_per_shard
    → m < replicas_per_shard
    → (http_port n ≢ grpc_port m)
      × (grpc_port n ≢ internal_port m)
      × (http_port n ≢ internal_port m)
      × ((http_port n ≡ http_port m) → n ≡ m)
      × ((shard_id : ℕ) → probe_port_fn shard_id n ≡ internal_port n)
unfolding http_port grpc_port internal_port probe_port_fn
port_families n m hn hm =
    (λ e. omega arith, λ e. omega arith, λ e. omega arith, λ e. omega arith, λ s. refl)
