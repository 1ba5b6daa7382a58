-- ===== src/Cluster.antt =====
-- app/cluster: the configuration of an agent in the cluster, the tools for its peers, and its
-- database.
pub mod Config
pub mod Database
pub mod Peer
