-- ===== src/Cluster/Laws.antt =====
-- What the BackrestCluster controller writes.
pub mod Annotations
pub mod Labels
pub mod Hosted
pub mod Ready
