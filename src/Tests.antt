-- ===== src/Tests.antt =====
-- Concrete inputs: the theorems at work on a small cluster and a small tree.
pub mod Transfers
pub mod Trees
pub mod Files
pub mod Listings
pub mod Peers
pub mod Configs
pub mod Replicas
pub mod Paths
pub mod Threads
pub mod Renames
pub mod Operations
