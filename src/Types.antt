-- ===== src/Types.antt =====
-- raft/types.rs and raft/rpc.rs: the data that nodes store and exchange. `V` is `serde_json::Value`.
use rust_kv.Base.{ℕ, String, Bool, Option, List}
use rust_kv.Maps.{Map}

abbrev pub NodeId : Type 0
NodeId = ℕ

abbrev pub Term : Type 0
Term = ℕ

-- 1-based; 0 is "no entry".
abbrev pub LogIndex : Type 0
LogIndex = ℕ

pub record Session : Type 0 where
  pub client : ℕ
  pub seq : ℕ

pub record MemberAddr : Type 0 where
  pub raft : String
  pub client : String

abbrev pub Membership : Type 0
Membership = Map MemberAddr

pub record HardState : Type 0 where
  pub current_term : Term
  pub voted_for : Option NodeId

pub record RequestVoteArgs : Type 0 where
  pub term : Term
  pub candidate_id : NodeId
  pub last_log_index : LogIndex
  pub last_log_term : Term

pub record RequestVoteReply : Type 0 where
  pub term : Term
  pub vote_granted : Bool

pub record AppendEntriesReply : Type 0 where
  pub term : Term
  pub success : Bool

pub record InstallSnapshotReply : Type 0 where
  pub term : Term

pub data Command (V : Type 0) : Type 0 where
  put : (key : String) (value : V) (session : Option Session) → Command V
  delete : (key : String) (session : Option Session) → Command V
  noop : Command V
  config_change : (members : Membership) → Command V

pub record LogEntry (V : Type 0) : Type 0 where
  pub term : Term
  pub index : LogIndex
  pub command : Command V

pub record Snapshot (V : Type 0) : Type 0 where
  pub last_included_index : LogIndex
  pub last_included_term : Term
  pub membership : Option Membership
  pub state : V

pub record AppendEntriesArgs (V : Type 0) : Type 0 where
  pub term : Term
  pub leader_id : NodeId
  pub prev_log_index : LogIndex
  pub prev_log_term : Term
  pub entries : List (LogEntry V)
  pub leader_commit : LogIndex

pub record InstallSnapshotArgs (V : Type 0) : Type 0 where
  pub term : Term
  pub leader_id : NodeId
  pub snapshot : Snapshot V

pub data RpcRequest (V : Type 0) : Type 0 where
  request_vote : RequestVoteArgs → RpcRequest V
  append_entries : AppendEntriesArgs V → RpcRequest V
  pre_vote : RequestVoteArgs → RpcRequest V
  install_snapshot : InstallSnapshotArgs V → RpcRequest V

pub data RpcResponse : Type 0 where
  request_vote : RequestVoteReply → RpcResponse
  append_entries : AppendEntriesReply → RpcResponse
  pre_vote : RequestVoteReply → RpcResponse
  install_snapshot : InstallSnapshotReply → RpcResponse

-- raft/transport/mod.rs
pub data TransportError : Type 0 where
  unreachable : NodeId → TransportError
  timeout : TransportError

-- The reply to a sent RPC, or why there is none.
pub data RpcResult : Type 0 where
  ok : RpcResponse → RpcResult
  err : TransportError → RpcResult
