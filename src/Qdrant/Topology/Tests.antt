-- ===== src/Qdrant/Topology/Tests.antt =====
-- The services of the compose file, and a cluster that comes up in two rounds.
use nano_db.Common.{nat_key, ◌≡◌, refl, [], ◌∷◌, true, some, eqb, if◌then◌else◌, replicate}
use nano_db.Common.Sets.{IsUnique}
use nano_db.Qdrant.Topology.{
  service_of, compose_services, http_port, grpc_port, internal_port, Reply, failed, replied,
  ClusterView, BringUp, bring_up_cluster, wait_for_nodes_ready, wait_for_cluster_formed,
  wait_for_shards_active, ready_loop, create_collection,
}
use nano_db.Qdrant.Topology.Ports.{host_ports}
use nano_db.Qdrant.Topology.Ready.{IsBroughtUp, bring_up_cluster_lem}
use nano_db.Common.Frac.{ok}

second_service : service_of 1 ≡ record {
  node = 1;
  bootstrap = some 0;
  ports = (16334, 6333) ∷ (16351, 6334) ∷ (16371, 6335) ∷ [];
  volume = 1;
  depends_on = 0 ∷ [];
}
unfolding service_of http_port grpc_port internal_port
second_service = refl

distinct_host_ports : IsUnique (host_ports compose_services)
unfolding compose_services service_of http_port grpc_port internal_port
distinct_host_ports = (refl, (refl, (refl, (refl, (refl, (refl, (refl, (refl, (refl, tt)))))))))

abbrev enabled : Reply ClusterView
enabled = replied 200 (record { status = some "enabled"; peers = 3 })

-- Node 2 is ready in the second round, when the first two no longer answer.
abbrev bring_up : BringUp
bring_up = record {
  returncode = 0;
  ready_rounds =
      (λ n. if eqb n 2 then failed else replied 200 tt)
      ∷ (λ n. if eqb n 2 then replied 200 tt else failed)
      ∷ [];
  cluster_rounds = (λ n. enabled) ∷ [];
  created = replied 200 tt;
  shard_rounds =
      failed
      ∷ replied 200
          (record { local_shards = replicate 2 "Active"; remote_shards = replicate 4 "Active" })
      ∷ [];
}

comes_up : bring_up_cluster bring_up (0 ∷ 1 ∷ 2 ∷ []) ≡ ok true
unfolding bring_up_cluster wait_for_nodes_ready wait_for_cluster_formed wait_for_shards_active
    ready_loop create_collection
comes_up = refl

bring_up_cluster_lem_example :
    IsBroughtUp bring_up (0 ∷ 1 ∷ 2 ∷ []) (bring_up_cluster bring_up (0 ∷ 1 ∷ 2 ∷ []))
bring_up_cluster_lem_example = bring_up_cluster_lem bring_up (0 ∷ 1 ∷ 2 ∷ [])
