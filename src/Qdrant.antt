-- ===== src/Qdrant.antt =====
-- The replication study on Qdrant: research/cross_system_replication and the analyses of its runs
-- (research/qdrant_kill_scheduler).
pub mod Gate
pub mod Topology
pub mod Writer
pub mod Run
pub mod Cluster
pub mod Schedule
pub mod Catchup
