-- ===== src/Node/Evolve.antt =====
-- The order of the states of a node (raft/node.rs): its term, its vote, its commit index and its
-- committed entries from one state to a later one.
pub mod Defs
pub mod Log
pub mod Replication
pub mod Election
pub mod Rpc
pub mod Events
pub mod Client
pub mod Loop
pub mod Life
