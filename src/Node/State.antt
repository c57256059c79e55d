-- ===== src/Node/State.antt =====
-- The data of raft/node.rs. Durations and instants are microseconds. A one-shot channel is the
-- number of its ticket, and a node's effects on the outside are the list `outbox`.
use rust_kv.Base.{ℕ, String, Bool, Option, List}
use rust_kv.Maps.{Map}
use rust_kv.Rng.{SplitMix64}
use rust_kv.Types.{
  NodeId, Term, LogIndex, MemberAddr, Membership, LogEntry, RpcRequest, RpcResponse, RpcResult,
  Command,
}
use rust_kv.Storage.{Storage}

pub record RaftConfig : Type 0 where
  pub id : NodeId
  pub peers : List NodeId
  pub election_timeout_min : ℕ
  pub election_timeout_max : ℕ
  pub heartbeat_interval : ℕ
  pub timeout_seed : ℕ
  pub snapshot_threshold : Option ℕ
  pub snapshot_trailing : ℕ
  pub bootstrap_addrs : Membership
  pub join : Bool
  pub test_disable_reconfig_gates : Bool

pub data RoleKind : Type 0 where
  follower pre_candidate candidate leader : RoleKind

pub record Status : Type 0 where
  pub id : NodeId
  pub term : Term
  pub role : RoleKind
  pub leader_id : Option NodeId
  pub commit_index : LogIndex
  pub last_log_index : LogIndex

pub data ProposeError : Type 0 where
  not_leader : (leader_hint : Option NodeId) → ProposeError
  invalid_config_change : (reason : String) → ProposeError
  shutdown : ProposeError

-- `dyn StateMachine` over a state `S`. A malformed payload makes `restore` panic.
pub record StateMachine (V S : Type 0) : Type 0 where
  pub apply : LogEntry V → S → S
  pub snapshot : S → V
  pub restore : V → Option S

pub record MembershipView : Type 0 where
  pub members : Membership
  pub departing : Membership

-- `committed` and `granted` are tickets of one-shot channels.
pub record PendingProposal : Type 0 where
  pub term : Term
  pub index : LogIndex
  pub committed : ℕ

pub record PendingRead : Type 0 where
  pub needed_seq : ℕ
  pub read_index : LogIndex
  pub granted : ℕ

pub data Event : Type 0 where
  pre_vote_reply : (sent_term : Term) (from : NodeId) (result : RpcResult) → Event
  vote_reply : (sent_term : Term) (from : NodeId) (result : RpcResult) → Event
  append_reply :
      (sent_term : Term) (from : NodeId) (sent_prev_index : LogIndex) (sent_entries sent_seq : ℕ)
      (result : RpcResult)
      → Event
  install_snapshot_reply :
      (sent_term : Term) (from : NodeId) (last_included_index : LogIndex) (result : RpcResult)
      → Event

pub record Leadership : Type 0 where
  pub next_index : Map LogIndex
  pub match_index : Map LogIndex
  pub term_start_index : LogIndex
  pub heartbeat_seq : ℕ
  pub acked_seq : Map ℕ
  pub last_contact : Map ℕ
  pub departing : Map (LogIndex × MemberAddr)
  pub pending_reads : List PendingRead

pub data Role : Type 0 where
  follower : Role
  pre_candidate : (votes : List NodeId) → Role
  candidate : (votes : List NodeId) → Role
  leader : Leadership → Role

-- What a client is answered at once.
pub data Reply (A : Type 0) : Type 0 where
  accepted : A → Reply A
  rejected : ProposeError → Reply A

-- `send` is a spawned task: it sends the request, and hands the node the event that `tag` makes of
-- the result.
pub data Output (V : Type 0) : Type 0 where
  send : (to : NodeId) (request : RpcRequest V) (tag : RpcResult → Event) → Output V
  respond : (ticket : ℕ) → RpcResponse → Output V
  propose_reply : (ticket : ℕ) → Reply (Term × LogIndex) → Output V
  read_reply : (ticket : ℕ) → Reply Unit → Output V
  committed : (ticket : ℕ) → Bool → Output V
  granted : (ticket : ℕ) → Output V

pub record Inbound (V : Type 0) : Type 0 where
  pub from : NodeId
  pub request : RpcRequest V
  pub reply : ℕ

pub data Control (V : Type 0) : Type 0 where
  shutdown : Control V
  propose : (command : Command V) (reply : ℕ) → Control V
  read : (reply : ℕ) → Control V

-- `now` is what `Instant::now()` reads while an event is handled; `membership_tx` and `status_tx`
-- are the values that the two watch channels hold.
pub record RaftNode (V S : Type 0) : Type 0 where
  pub config : RaftConfig
  pub storage : Storage V
  pub state_machine : StateMachine V S
  pub state : S
  pub role : Role
  pub leader_id : Option NodeId
  pub commit_index : LogIndex
  pub last_applied : LogIndex
  pub pending : List PendingProposal
  pub staged_snapshot : Option (LogIndex × V × Option Membership)
  pub members : Membership
  pub members_index : LogIndex
  pub membership_tx : MembershipView
  pub last_leader_contact : Option ℕ
  pub election_deadline : ℕ
  pub next_heartbeat : ℕ
  pub rng : SplitMix64
  pub status_tx : Status
  pub now : ℕ
  pub outbox : List (Output V)
