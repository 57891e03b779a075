-- ===== src/Raft.antt =====
-- trading/src/consensus/raft.rs, a Raft node as an actor.
pub mod Types
pub mod Log
pub mod Rpc
pub mod Leader
pub mod Actor
pub mod Steps
pub mod Applying
pub mod Voting
pub mod Ordered
pub mod Shape
pub mod Matching
pub mod Commit
pub mod Majority
mod Examples
