-- ===== src/Node/Wf.antt =====
-- The invariant of a node of raft/node.rs: a log without gaps, indexes in order, and a leader's next
-- indexes within its log. One module for each group of handlers.
pub mod Defs
pub mod Apply
pub mod Replication
pub mod Election
pub mod Walk
pub mod Append
pub mod Rpc
pub mod Events
pub mod Client
pub mod Loop
