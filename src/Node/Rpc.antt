-- ===== src/Node/Rpc.antt =====
-- The inbound RPC handlers of raft/node.rs.
use rust_kv.Base.{
  ◌+◌, ◌-◌, min, Bool, true, false, not, ◌&&◌, ◌||◌, Option, none, some, List, [], ◌∷◌, leb, ltb,
  ◌==◌, length, drop, filter, if◌then◌else◌,
}
use mathlib.Core.List.{reverse}
use rust_kv.Outcome.{◌>>=◌, assert}
use rust_kv.Types.{
  NodeId, Term, LogIndex, LogEntry, RequestVoteArgs, RequestVoteReply, AppendEntriesArgs,
  AppendEntriesReply, InstallSnapshotArgs, InstallSnapshotReply, RpcRequest, RpcResponse,
}
use rust_kv.Storage
use rust_kv.Storage.{Storage, expect}
use rust_kv.Node.State.{PendingProposal, Inbound, respond, RaftNode}
use rust_kv.Node.Queries.{
  current_term, is_leader, within, emit, save_hard_state, reset_election_timer,
}
use rust_kv.Node.Membership.{latest_config, adopt_membership, rescan_membership}
use rust_kv.Node.Apply.{apply_committed, resolve_pending}
use rust_kv.Node.Replication.{become_follower}

-- `(t, i) >= (t', i')` on pairs of a last term and a last index
unfoldable pub up_to_date : Term → LogIndex → Term → LogIndex → Bool
up_to_date t i t' i' = ltb t' t || (t == t' && leb i' i)

module _ {V S : Type 0} where
  unfoldable pub log_up_to_date : RaftNode V S → RequestVoteArgs → Bool
  log_up_to_date n args =
      up_to_date args.last_log_term args.last_log_index (Storage.last_term n.storage)
        (Storage.last_index n.storage)

  unfoldable pub can_vote : RaftNode V S → NodeId → Bool
  can_vote n candidate = elim n.storage.hard_state.voted_for [
    | none ↦ true
    | some c ↦ c == candidate
  ]

  -- `handle_request_vote` from where the term of the request is adopted.
  unfoldable pub grant_vote :
      RequestVoteArgs → RaftNode V S → Option (RequestVoteReply × RaftNode V S)
  grant_vote args n =
      let term = current_term n in
      if ltb args.term term
      then some (record { term = term; vote_granted = false }, n)
      else if can_vote n args.candidate_id && log_up_to_date n args
      then (do
        n' ← reset_election_timer (save_hard_state term (some args.candidate_id) n)
        some (record { term = term; vote_granted = true }, n'))
      else some (record { term = term; vote_granted = false }, n)

  unfoldable pub handle_request_vote :
      RequestVoteArgs → RaftNode V S → Option (RequestVoteReply × RaftNode V S)
  handle_request_vote args n = do
    n' ← if ltb (current_term n) args.term then become_follower args.term none n else some n
    grant_vote args n'

  unfoldable pub leader_is_live : RaftNode V S → Bool
  leader_is_live n = is_leader n || within n n.config.election_timeout_min n.last_leader_contact

  unfoldable pub handle_pre_vote : RequestVoteArgs → RaftNode V S → RequestVoteReply
  handle_pre_vote args n = record {
    term = current_term n;
    vote_granted =
        ltb (current_term n) args.term && log_up_to_date n args && not (leader_is_live n);
  }

  -- The part of `handle_install_snapshot` that installs.
  unfoldable pub install : InstallSnapshotArgs V → RaftNode V S → Option (RaftNode V S)
  install args n = do
    let boundary = args.snapshot.last_included_index
    storage ← expect (Storage.install_snapshot args.snapshot n.storage)
    state ← n.state_machine.restore args.snapshot.state
    let n' = rescan_membership (record n {
      storage = storage;
      state = state;
      commit_index = boundary;
      last_applied = boundary;
    })
    some (
        resolve_pending (record n' {
          pending = filter (λ (p : PendingProposal). ltb boundary p.index) n'.pending;
        }))

  unfoldable pub handle_install_snapshot :
      InstallSnapshotArgs V → RaftNode V S → Option (InstallSnapshotReply × RaftNode V S)
  handle_install_snapshot args n =
      if ltb args.term (current_term n) then some (record { term = current_term n }, n) else do
        n' ← become_follower args.term (some args.leader_id) n
        let n'' = record n' { last_leader_contact = some n'.now }
        let reply : InstallSnapshotReply = record { term = current_term n'' }
        if leb args.snapshot.last_included_index n''.commit_index
            then some (reply, n'')
            else do m ← install args n''; some (reply, m)

-- What the walk over the entries of an AppendEntries finds: the log holds them all, it ends before
-- the entry at an index, or it has another term there.
pub data Walk : Type 0 where
  held : Walk
  missing : LogIndex → Walk
  conflict : LogIndex → Walk

module _ {V : Type 0} where
  unfoldable pub walk : Storage V → List (LogEntry V) → Walk
  walk s [] = held
  walk s (e ∷ es) =
      let rest = walk s es in
      if leb e.index (Storage.snapshot_index s) then rest else elim (Storage.term s e.index) [
        | some t ↦ if t == e.term then rest else conflict e.index
        | none ↦ missing e.index
      ]

  -- An index below the boundary matches vacuously.
  unfoldable pub prev_matches : Storage V → LogIndex → Term → Bool
  prev_matches s index t = elim (Storage.term s index) [
    | some t' ↦ t' == t
    | none ↦ ltb index (Storage.snapshot_index s)
  ]

module _ {V S : Type 0} where
  -- `self.storage.append(&args.entries[offset..])` with the adoption of what it carries
  unfoldable pub append_from : LogIndex → AppendEntriesArgs V → RaftNode V S → Option (RaftNode V S)
  append_from first args n = do
    let offset = first - args.prev_log_index - 1
    entries ←
        assert (ltb args.prev_log_index first && leb offset (length args.entries))
          (drop offset args.entries)
    storage ← expect (Storage.append entries n.storage)
    let n' = record n { storage = storage }
    some (elim (latest_config (reverse entries)) [
      | none ↦ n'
      | some (members, index) ↦ adopt_membership members index n'
    ])

  unfoldable pub truncate_at : LogIndex → RaftNode V S → Option (RaftNode V S)
  truncate_at index n = do
    m ← assert (ltb n.commit_index index) n
    storage ← expect (Storage.truncate_from index m.storage)
    let n' = resolve_pending (record m { storage = storage })
    some (if leb index m.members_index then rescan_membership n' else n')

  unfoldable pub write_entries : Walk → AppendEntriesArgs V → RaftNode V S → Option (RaftNode V S)
  write_entries held args n = some n
  write_entries (missing first) args n = append_from first args n
  write_entries (conflict first) args n = do n' ← truncate_at first n; append_from first args n'

  unfoldable pub advance_to : LogIndex → RaftNode V S → Option (RaftNode V S)
  advance_to new_commit n =
      if ltb n.commit_index new_commit
      then apply_committed (record n { commit_index = new_commit })
      else some n

  -- `handle_append_entries` from where the consistency check has passed.
  unfoldable pub accept_entries : AppendEntriesArgs V → RaftNode V S → Option (RaftNode V S)
  accept_entries args n = do
    n' ← write_entries (walk n.storage args.entries) args n
    advance_to (min args.leader_commit (args.prev_log_index + length args.entries)) n'

  unfoldable pub handle_append_entries :
      AppendEntriesArgs V → RaftNode V S → Option (AppendEntriesReply × RaftNode V S)
  handle_append_entries args n =
      if ltb args.term (current_term n)
      then some (record { term = current_term n; success = false }, n)
      else do
        n' ← become_follower args.term (some args.leader_id) n
        let n'' = record n' { last_leader_contact = some n'.now }
        let term = current_term n''
        if not (prev_matches n''.storage args.prev_log_index args.prev_log_term)
            then some (record { term = term; success = false }, n'')
            else do m ← accept_entries args n''; some (record { term = term; success = true }, m)

  unfoldable pub dispatch : RpcRequest V → RaftNode V S → Option (RpcResponse × RaftNode V S)
  dispatch (RpcRequest.request_vote args) n = do
    (reply, n') ← handle_request_vote args n
    some (RpcResponse.request_vote reply, n')
  dispatch (RpcRequest.append_entries args) n = do
    (reply, n') ← handle_append_entries args n
    some (RpcResponse.append_entries reply, n')
  dispatch (RpcRequest.pre_vote args) n = some (RpcResponse.pre_vote (handle_pre_vote args n), n)
  dispatch (RpcRequest.install_snapshot args) n = do
    (reply, n') ← handle_install_snapshot args n
    some (RpcResponse.install_snapshot reply, n')

  unfoldable pub handle_inbound : Inbound V → RaftNode V S → Option (RaftNode V S)
  handle_inbound inbound n = do
    (response, n') ← dispatch inbound.request n
    some (emit (respond inbound.reply response) n')
