-- ===== src/Cluster.antt =====
-- cluster.go: the nodes of a cluster, the topology it agrees on, and which nodes own a partition.
-- A cluster's node list is owned by one goroutine under its lock, so its operations are functions.
pub mod Resize
pub mod Nodes
pub mod Frags
pub mod Placement
pub mod Topology
pub mod Diff
