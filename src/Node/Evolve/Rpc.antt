-- ===== src/Node/Evolve/Rpc.antt =====
-- The inbound RPC handlers (raft/node.rs) in the order of a node's states.
use rust_kv.Base.{
  ◌+◌, ◌-◌, ◌<◌, ◌≡◌, true, not, ◌&&◌, none, some, arith, min, leb, ltb, length, drop, leb→gt,
  ltb→lt,
}
use mathlib.Core.List.{reverse}
use rust_kv.Outcome.{Ensures, Ensures-some, Ensures-if, Ensures-bind}
use rust_kv.Types.{
  NodeId, LogIndex, HardState, RequestVoteArgs, AppendEntriesArgs, InstallSnapshotArgs, RpcRequest,
}
use rust_kv.Storage
use rust_kv.Storage.{Storage, expect}
use rust_kv.Node.State.{Inbound, RaftNode}
use rust_kv.Node.Queries.{current_term, emit, save_hard_state}
use rust_kv.Node.Membership.{latest_config, adopt_membership, rescan_membership, publish_membership}
use rust_kv.Node.Apply.{resolve_pending}
use rust_kv.Node.Rpc.{
  log_up_to_date, can_vote, grant_vote, handle_request_vote, install, handle_install_snapshot, Walk,
  held, missing, conflict, walk, prev_matches, append_from, truncate_at, write_entries, advance_to,
  accept_entries, handle_append_entries, dispatch, handle_inbound,
}
use rust_kv.Node.Evolve.Defs.{
  Evolves, Evolves-refl, Evolves-trans, Evolves-then, Evolves-after, by_if, by_option, Ensures-any,
  Ensures-assert,
}
use rust_kv.Node.Evolve.Log.{append-Keeps, truncate_from-Keeps, install_snapshot-Keeps}
use rust_kv.Node.Evolve.Replication.{
  storage-Evolves, hard_state-Evolves, commit-Evolves, reset_election_timer-Evolves,
  become_follower-Evolves, commit_above-Evolves,
}

module _ {V S : Type 0} where
  pub adopt_membership-Evolves :
      (members : _) (index : LogIndex) (n : RaftNode V S)
      → Evolves n (adopt_membership members index n)
  unfolding adopt_membership publish_membership
  adopt_membership-Evolves members index n = Evolves-refl n

  -- A vote that is already cast is granted only again.
  same_vote :
      (n : RaftNode V S) (candidate c : NodeId)
      → can_vote n candidate ≡ true
      → n.storage.hard_state.voted_for ≡ some c
      → some candidate ≡ some c
  unfolding can_vote
  same_vote n candidate c free q = ground (arith, free, q)

  grant_vote-Evolves :
      (args : RequestVoteArgs) (n : RaftNode V S) → Ensures (λ x. Evolves n x.1) (grant_vote args n)
  unfolding grant_vote current_term save_hard_state Storage.save_hard_state
  grant_vote-Evolves args n =
      let h : HardState = record {
        current_term = n.storage.hard_state.current_term;
        voted_for = some args.candidate_id;
      } in
      let m : RaftNode V S = record n { storage = record n.storage { hard_state = h } } in
      Ensures-if (ltb args.term n.storage.hard_state.current_term) _ _
        (λ _. Ensures-some _ (Evolves-refl n))
        (λ _.
          Ensures-if (can_vote n args.candidate_id && log_up_to_date n args) _ _
            (λ free.
              Ensures-bind
                (Evolves-after n m
                  (hard_state-Evolves n h (record {
                    term = omega arith;
                    vote = λ _ c q. same_vote n args.candidate_id c (ground (arith, free)) q;
                  }))
                  (reset_election_timer-Evolves m))
                (λ n' e. Ensures-some _ e))
            (λ _. Ensures-some _ (Evolves-refl n)))

  append_from-Evolves :
      (first : LogIndex) (args : AppendEntriesArgs V) (n : RaftNode V S)
      → Ensures (Evolves n) (append_from first args n)
  unfolding append_from
  append_from-Evolves first args n =
      let offset = first - args.prev_log_index - 1 in
      let entries = drop offset args.entries in
      Ensures-assert (ltb args.prev_log_index first && leb offset (length args.entries)) entries _
        (λ _. Ensures-bind (append-Keeps n.commit_index entries n.storage) (λ s k.
          let n' : RaftNode V S = record n { storage = s } in
          Ensures-some _ (
            by_option (Evolves n) (latest_config (reverse entries)) (storage-Evolves n s k) (λ x.
              Evolves-trans n n' (adopt_membership x.0 x.1 n') (storage-Evolves n s k)
                (adopt_membership-Evolves x.0 x.1 n')))))

  truncate_at-Evolves :
      (index : LogIndex) (n : RaftNode V S) → Ensures (Evolves n) (truncate_at index n)
  unfolding truncate_at rescan_membership resolve_pending adopt_membership publish_membership
  truncate_at-Evolves index n = Ensures-assert (ltb n.commit_index index) n _ (λ h.
      Ensures-bind
        (truncate_from-Keeps n.commit_index index n.storage (ltb→lt n.commit_index index h))
        (λ s k. Ensures-some _ (
          by_if (Evolves n) (leb index n.members_index) (storage-Evolves n s k)
            (storage-Evolves n s k))))

  write_entries-Evolves :
      (w : Walk) (args : AppendEntriesArgs V) (n : RaftNode V S)
      → Ensures (Evolves n) (write_entries w args n)
  unfolding write_entries
  write_entries-Evolves held args n = Ensures-some n (Evolves-refl n)
  write_entries-Evolves (missing first) args n = append_from-Evolves first args n
  write_entries-Evolves (conflict first) args n =
      Evolves-then n (truncate_at-Evolves first n) (λ m. append_from-Evolves first args m)

  advance_to-Evolves : (c : LogIndex) (n : RaftNode V S) → Ensures (Evolves n) (advance_to c n)
  unfolding advance_to
  advance_to-Evolves c n =
      Ensures-if (ltb n.commit_index c) _ (some n) (λ h. commit_above-Evolves c n h)
        (λ _. Ensures-some n (Evolves-refl n))

  accept_entries-Evolves :
      (args : AppendEntriesArgs V) (n : RaftNode V S) → Ensures (Evolves n) (accept_entries args n)
  unfolding accept_entries
  accept_entries-Evolves args n =
      Evolves-then n (write_entries-Evolves (walk n.storage args.entries) args n) (λ m.
        advance_to-Evolves (min args.leader_commit (args.prev_log_index + length args.entries)) m)

  handle_append_entries-Evolves :
      (args : AppendEntriesArgs V) (n : RaftNode V S)
      → Ensures (λ x. Evolves n x.1) (handle_append_entries args n)
  unfolding handle_append_entries
  handle_append_entries-Evolves args n =
      Ensures-if (ltb args.term (current_term n)) _ _ (λ _. Ensures-some _ (Evolves-refl n))
        (λ _. Ensures-bind (become_follower-Evolves args.term (some args.leader_id) n) (λ m e.
          let m' : RaftNode V S = record m { last_leader_contact = some m.now } in
          Ensures-if (not (prev_matches m.storage args.prev_log_index args.prev_log_term)) _ _
            (λ _. Ensures-some _ e)
            (λ _.
              Ensures-bind (Evolves-after n m' e (accept_entries-Evolves args m'))
                (λ k e'. Ensures-some _ e'))))

  install-Evolves :
      (args : InstallSnapshotArgs V) (n : RaftNode V S)
      → n.commit_index < args.snapshot.last_included_index
      → Ensures (Evolves n) (install args n)
  unfolding install rescan_membership resolve_pending adopt_membership publish_membership
  install-Evolves args n lt =
      Ensures-bind (install_snapshot-Keeps n.commit_index args.snapshot n.storage lt) (λ s k.
        let m : RaftNode V S = record n { storage = s } in
        Ensures-any (n.state_machine.restore args.snapshot.state) _ (λ state _. Ensures-some _ (
          Evolves-trans n m (record m { commit_index = args.snapshot.last_included_index })
            (storage-Evolves n s k)
            (commit-Evolves m args.snapshot.last_included_index (omega arith)))))

  handle_install_snapshot-Evolves :
      (args : InstallSnapshotArgs V) (n : RaftNode V S)
      → Ensures (λ x. Evolves n x.1) (handle_install_snapshot args n)
  unfolding handle_install_snapshot
  handle_install_snapshot-Evolves args n =
      Ensures-if (ltb args.term (current_term n)) _ _ (λ _. Ensures-some _ (Evolves-refl n))
        (λ _. Ensures-bind (become_follower-Evolves args.term (some args.leader_id) n) (λ m e.
          let m' : RaftNode V S = record m { last_leader_contact = some m.now } in
          Ensures-if (leb args.snapshot.last_included_index m.commit_index) _ _
            (λ _. Ensures-some _ e)
            (λ up.
              Ensures-bind
                (Evolves-after n m' e (
                  install-Evolves args m'
                    (leb→gt args.snapshot.last_included_index m.commit_index up)))
                (λ k e'. Ensures-some _ e'))))

  pub handle_request_vote-Evolves :
      (args : RequestVoteArgs) (n : RaftNode V S)
      → Ensures (λ x. Evolves n x.1) (handle_request_vote args n)
  unfolding handle_request_vote
  handle_request_vote-Evolves args n =
      Ensures-bind
        (Ensures-if (ltb (current_term n) args.term) _ (some n)
          (λ _. become_follower-Evolves args.term none n) (λ _. Ensures-some n (Evolves-refl n)))
        (λ m e. record { at = λ x q. Evolves-trans n m x.1 e ((grant_vote-Evolves args m).at x q) })

  dispatch-Evolves :
      (request : RpcRequest V) (n : RaftNode V S)
      → Ensures (λ x. Evolves n x.1) (dispatch request n)
  unfolding dispatch
  dispatch-Evolves (RpcRequest.request_vote args) n =
      Ensures-bind (handle_request_vote-Evolves args n) (λ x e. Ensures-some _ e)
  dispatch-Evolves (RpcRequest.append_entries args) n =
      Ensures-bind (handle_append_entries-Evolves args n) (λ x e. Ensures-some _ e)
  dispatch-Evolves (RpcRequest.pre_vote args) n = Ensures-some _ (Evolves-refl n)
  dispatch-Evolves (RpcRequest.install_snapshot args) n =
      Ensures-bind (handle_install_snapshot-Evolves args n) (λ x e. Ensures-some _ e)

  pub handle_inbound-Evolves :
      (inbound : Inbound V) (n : RaftNode V S) → Ensures (Evolves n) (handle_inbound inbound n)
  unfolding handle_inbound emit
  handle_inbound-Evolves inbound n =
      Ensures-bind (dispatch-Evolves inbound.request n) (λ x e. Ensures-some _ e)
