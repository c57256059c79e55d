-- ===== src/Node.antt =====
-- raft/node.rs: the consensus core, as functions on the state of one node.
pub mod State
pub mod Queries
pub mod Membership
pub mod Apply
pub mod Replication
pub mod Election
pub mod Rpc
pub mod Events
pub mod Client
pub mod Loop
pub mod Wf
pub mod Voting
pub mod Evolve
pub mod Applied
pub mod Commit
pub mod Matching
pub mod Replicated
pub mod Quorum
pub mod Counts
pub mod Held
pub mod Settled
