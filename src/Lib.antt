-- ===== src/Lib.antt =====
-- rustKV: a key-value store replicated with Raft. Each node keeps a hard state (term and vote), a
-- log and a snapshot on its disk, takes part in elections and replication through RPCs, and applies
-- the committed entries of its log to a key-value state machine that skips commands it has applied.
--
-- The parts, the files that model them, and the code (paths from the repository's root):
--   * Types.antt, with Node/State.antt: the data of src/raft/types.rs, src/raft/rpc.rs,
--     src/raft/transport/mod.rs and of the top of src/raft/node.rs, with the code's names. The
--     JSON values of the commands are a type parameter `V`, the state of the state machine a type
--     `S`.
--   * Rng.antt (Range): `SplitMix64` of src/rng.rs, with 64-bit wrap-around written out.
--   * Storage.antt (Contiguous, Lookup, Compaction, Log): `Storage` of src/raft/storage.rs as it
--     mirrors the disk in memory: one function for each method, and its errors as a `Result`.
--   * Storage/Disk.antt: the data directory of src/raft/storage.rs as bytes: `open`,
--     `load_hard_state`, `load_snapshot` and `replay_log`. Operations has the calls by which each
--     method changes the files, in their order, and Crash the directories that a crash leaves.
--   * Node.antt: `RaftNode` of src/raft/node.rs. Queries has its small helpers, Membership the
--     log-derived configuration, Apply the application of entries with `resolve_pending`,
--     `resolve_reads` and `maybe_compact`, Replication `become_follower`, `send_append` and
--     `maybe_advance_commit`, Election the campaigns, Rpc the inbound handlers, Events the replies
--     to outbound RPCs (`handle_event`), Client `handle_propose` and `handle_read`, and Loop
--     `spawn` and one turn of `run`.
--   * Node/Wf: the invariant of a node, through every handler. Node/Evolve: the order of a node's
--     states, and its life across restarts. Node/Voting, Node/Matching, Node/Replicated,
--     Node/Applied, Node/Settled, Node/Commit (with Counts and Held) and Node/Quorum: votes, what a
--     follower writes, what a node applies and answers, the commit rule, and changes of the
--     configuration.
--   * Kv.antt (Session, Dict, Store, Dedup, History): `SessionState` and `KvStore` of src/store.rs.
--   * Service.antt: `KvNode::write` and `KvNode::get_linearizable` of src/kv.rs. Api.antt
--     (Replies, Reads, Members): the handlers of src/api.rs. Config.antt (Peers, Valid):
--     `NodeConfig::from_vars` of src/config.rs, and the Raft configuration that src/main.rs
--     builds. Chars.antt: the functions on strings that they call.
--   * Sim.antt: the safety observer of src/raft/transport/sim.rs. Sim/Network: its faults, and
--     `send`.
--   * Http.antt (Head, Framing, Pool): the transport of src/raft/transport/http.rs.
--   * Base.antt, Maps.antt, Outcome.antt: lists and tests on native numbers, maps as association
--     lists, and code that may panic. Examples.antt: concrete nodes, logs and stores.
--
-- How the code is modelled. A handler that mutates the node is a function from the node to the
-- node. It has an `Option` where the code can panic (`assert!`, `expect`, an `unwrap`): `none` is
-- the panic, after which the node stops, since it is fail-stop. A part of a handler is a definition
-- of its own where the code has a loop or a nested block, and the handler calls it where the block
-- stands. Sends, replies and one-shot channels are entries of the node's `outbox`, in order; a
-- spawned task that sends an RPC is one entry with the function that makes the event of its result.
-- The `select!` of the loop is a choice in its fixed order among what the channels hold.
-- `Instant::now()` is read once for each event. Loops over lists are structural recursion; the loop
-- of `apply_committed` runs `commit_index - last_applied` times, the number of turns that its
-- condition allows, so no fuel is involved.
--
-- The files are lists of bytes, and serde_json a parameter `FileCodec` with laws `IsFileCodec`:
-- compact JSON has no newline, a newline after it does no harm, and parsing gives back what was
-- serialized, where the type `V` stands for the JSON values of which that holds. A method of the
-- storage is a list of calls, each durable before the next, as the code's `sync_all` has it. A
-- crash leaves some calls done, and of the call in progress a prefix of its bytes.
--
-- Terms, indexes and sequence numbers are unbounded except where the code's own 64-bit arithmetic
-- decides something: the bits of a session window and the random numbers wrap around as in the
-- code; an increment of a term or an index past 2^64 is left out. `debug_assert!` is left out. The
-- state machine's `restore` may fail, and a theorem that needs it to succeed says so.
--
-- Not modelled: errors that the operating system returns for a file (they stop the node), the bytes
-- of an HTTP request between nodes, the start of the servers in src/main.rs, axum's routing and
-- extractors, the tasks and timers of the simulated network, whose outcome is an argument of
-- `deliver`; the locks of the store; the texts of configuration errors. The encoding of the store's
-- state as JSON is a parameter, and so is the comparison of `f64` values in `next_bool`.
pub mod Base
pub mod Maps
pub mod Outcome
pub mod Rng
pub mod Types
pub mod Storage
pub mod Node
pub mod Kv
pub mod Http
pub mod Chars
pub mod Service
pub mod Api
pub mod Config
pub mod Sim
pub mod Examples
