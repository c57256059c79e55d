-- ===== src/Node/Election.antt =====
-- Pre-campaigns, elections and the start of a leadership (raft/node.rs).
use rust_kv.Base.{◌+◌, not, Option, none, some, List, [], ◌∷◌, leb, if◌then◌else◌}
use rust_kv.Maps.{collect}
use rust_kv.Outcome.{◌>>=◌}
use rust_kv.Types.{NodeId, Term, RequestVoteArgs, RpcRequest, RpcResult, noop}
use rust_kv.Storage
use rust_kv.Storage.{expect}
use rust_kv.Node.State.{
  pre_candidate, candidate, leader, Leadership, Event, pre_vote_reply, vote_reply, send, RaftNode,
}
use rust_kv.Node.Queries.{
  current_term, majority, is_member, peer_ids, count_member_votes, emit, save_hard_state,
  reset_election_timer,
}
use rust_kv.Node.Replication.{maybe_advance_commit, on_heartbeat_tick}

module _ {V S : Type 0} where
  unfoldable pub vote_args : Term → RaftNode V S → RequestVoteArgs
  vote_args term n = record {
    term = term;
    candidate_id = n.config.id;
    last_log_index = Storage.last_index n.storage;
    last_log_term = Storage.last_term n.storage;
  }

  -- One spawned task for each peer.
  unfoldable pub broadcast :
      RpcRequest V → (NodeId → RpcResult → Event) → List NodeId → RaftNode V S → RaftNode V S
  broadcast request tag [] n = n
  broadcast request tag (peer ∷ peers) n =
      broadcast request tag peers (emit (send peer request (tag peer)) n)

  unfoldable pub fresh_leadership : RaftNode V S → Leadership
  fresh_leadership n = record {
    next_index = collect (peer_ids n) (Storage.last_index n.storage + 1);
    match_index = collect (peer_ids n) 0;
    term_start_index = Storage.last_index n.storage + 1;
    heartbeat_seq = 0;
    acked_seq = [];
    last_contact = collect (peer_ids n) n.now;
    departing = [];
    pending_reads = [];
  }

  unfoldable pub become_leader : RaftNode V S → Option (RaftNode V S)
  become_leader n = do
    let next = Storage.last_index n.storage + 1
    storage ← expect (
        Storage.append (record { term = current_term n; index = next; command = noop } ∷ [])
          n.storage)
    n' ← maybe_advance_commit (record n {
      role = leader (fresh_leadership n);
      leader_id = some n.config.id;
      storage = storage;
    })
    on_heartbeat_tick n'

  unfoldable pub maybe_become_leader : RaftNode V S → Option (RaftNode V S)
  maybe_become_leader n = elim n.role [
    | candidate votes ↦
        if leb (majority n) (count_member_votes n votes) then become_leader n else some n
    | _ ↦ some n
  ]

  unfoldable pub start_election : RaftNode V S → Option (RaftNode V S)
  start_election n = do
    let term = current_term n + 1
    n' ← reset_election_timer (record (save_hard_state term (some n.config.id) n) {
      role = candidate (n.config.id ∷ []);
      leader_id = none;
    })
    maybe_become_leader
        (broadcast (RpcRequest.request_vote (vote_args term n')) (vote_reply term) (peer_ids n') n')

  unfoldable pub maybe_start_election : RaftNode V S → Option (RaftNode V S)
  maybe_start_election n = elim n.role [
    | pre_candidate votes ↦
        if leb (majority n) (count_member_votes n votes) then start_election n else some n
    | _ ↦ some n
  ]

  unfoldable pub on_election_timeout : RaftNode V S → Option (RaftNode V S)
  on_election_timeout n = if not (is_member n n.config.id) then reset_election_timer n else do
    let prospective = current_term n + 1
    n' ←
        reset_election_timer
          (record n { role = pre_candidate (n.config.id ∷ []); leader_id = none })
    maybe_start_election (
        broadcast (RpcRequest.pre_vote (vote_args prospective n')) (pre_vote_reply prospective)
          (peer_ids n') n')
