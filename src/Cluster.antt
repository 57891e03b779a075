-- ===== src/Cluster.antt =====
-- actix-cluster/src: vector clocks and the resolution of conflicts, the placement of actors, the
-- registry, supervision and the migration of actors.
pub mod Clock
pub mod Pointwise
pub mod Joining
pub mod Hash
pub mod Placement
pub mod Choosing
pub mod Replicas
pub mod Placing
pub mod Registry
pub mod Caching
pub mod Coherence
pub mod CacheSize
pub mod Trimming
pub mod Supervision
pub mod Budget
pub mod Restarting
pub mod Migration
pub mod Migrating
mod Examples
mod Failing
